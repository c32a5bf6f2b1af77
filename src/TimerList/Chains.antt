-- ===== src/TimerList/Chains.antt =====
-- Lists that the links of TimerList make.
use unix_network_programming.Base.{
  ℕ, ◌≤◌, ◌≡◌, ◌≢◌, sym, ap, subst, ◌∙◌, List, [], ◌∷◌, Option, none, some, ◌==◌, then_branch,
  else_branch, All, arith,
}
use unix_network_programming.TimerList.{Node, write}

pub write_same : (a : ℕ) (f : Node → Node) (node : ℕ → Node) → write a f node a ≡ f (node a)
write_same a f node = then_branch {b = a == a} _ _ (ground arith)

pub write_other : (a x : ℕ) (f : Node → Node) (node : ℕ → Node) → x ≢ a → write a f node x ≡ node x
write_other a x f node h = else_branch {b = x == a} _ _ (ground arith)

-- The tail behind the last timer; of an empty list it is not looked at.
abbrev pub Last : Option ℕ → Option ℕ → Type 0
Last none tail = Unit
Last (some p) tail = tail ≡ some p

-- From `start` on, behind `prev`, the links lead through these timers both ways.
abbrev pub Chain : (ℕ → Node) → Option ℕ → Option ℕ → List ℕ → Option ℕ → Type 0
Chain node start prev [] tail = (start ≡ none) × Last prev tail
Chain node start prev (x ∷ xs) tail =
    (start ≡ some x) × ((node x).prev ≡ prev) × Chain node (node x).next (some x) xs tail

abbrev pub Differ : ℕ → List ℕ → Type 0
Differ a xs = All (λ x. x ≢ a) xs

abbrev pub NoDup : List ℕ → Type 0
NoDup [] = Unit
NoDup (x ∷ xs) = Differ x xs × NoDup xs

-- Each timer expires no later than those behind it.
abbrev pub Sorted : (ℕ → ℕ) → List ℕ → Type 0
Sorted e [] = Unit
Sorted e (x ∷ xs) = All (λ y. e x ≤ e y) xs × Sorted e xs

abbrev pub expire_of : (ℕ → Node) → ℕ → ℕ
expire_of node x = (node x).expire

pub Chain-agree :
    (node node' : ℕ → Node) (start prev tail : Option ℕ) (xs : List ℕ)
    → All (λ x. node' x ≡ node x) xs
    → Chain node start prev xs tail
    → Chain node' start prev xs tail
Chain-agree node node' start prev tail [] h c = c
Chain-agree node node' start prev tail (x ∷ xs) (h, hs) (s, p, c) = (
  s,
  ap (λ n. n.prev) h ∙ p,
  subst (λ n. Chain node' n.next (some x) xs tail) (sym h)
      (Chain-agree node node' (node x).next (some x) tail xs hs c),
)

-- A change of one timer that is not in the list.
pub agree_outside :
    (node node' : ℕ → Node) (xs : List ℕ) (P : ℕ → Type 0)
    → ((y : ℕ) → P y → node' y ≡ node y)
    → All P xs
    → All (λ x. node' x ≡ node x) xs
agree_outside node node' [] P h d = tt
agree_outside node node' (x ∷ xs) P h (d, ds) = (h x d, agree_outside node node' xs P h ds)
