-- ===== src/TimerList/Segments.antt =====
-- The first part of a list that the links of TimerList make, and what writes do to it.
use unix_network_programming.Base.{
  ℕ, ◌≡◌, ◌≢◌, refl, sym, ap, subst, ◌∙◌, List, [], ◌∷◌, ◌++◌, Option, some, All, All-append,
}
use unix_network_programming.TimerList.{Node, write}
use unix_network_programming.TimerList.Chains.{
  write_same, write_other, Chain, Differ, NoDup, Chain-agree, agree_outside,
}
use unix_network_programming.TimerList.Links.{to_next, to_prev}

-- From `start` on, behind `prev`, the links lead through these timers to `stop`.
abbrev pub Segment : (ℕ → Node) → Option ℕ → Option ℕ → List ℕ → Option ℕ → Type 0
Segment node start prev [] stop = start ≡ stop
Segment node start prev (x ∷ xs) stop =
    (start ≡ some x) × ((node x).prev ≡ prev) × Segment node (node x).next (some x) xs stop

-- What stands before the timer behind them.
abbrev pub last_of : Option ℕ → List ℕ → Option ℕ
last_of prev [] = prev
last_of prev (x ∷ xs) = last_of (some x) xs

abbrev pub last_from : ℕ → List ℕ → ℕ
last_from x [] = x
last_from x (y ∷ ys) = last_from y ys

pub last_from_lem : (x : ℕ) (xs : List ℕ) → last_of (some x) xs ≡ some (last_from x xs)
last_from_lem x [] = refl
last_from_lem x (y ∷ ys) = last_from_lem y ys

pub last_from-All : (P : ℕ → Type 0) (x : ℕ) (xs : List ℕ) → All P (x ∷ xs) → P (last_from x xs)
last_from-All P x [] (h, hs) = h
last_from-All P x (y ∷ ys) (h, hs) = last_from-All P y ys hs

pub Chain-split :
    (node : ℕ → Node) (start prev tail : Option ℕ) (xs ys : List ℕ)
    → Chain node start prev (xs ++ ys) tail
    → (stop : Option ℕ) × Segment node start prev xs stop
      × Chain node stop (last_of prev xs) ys tail
Chain-split node start prev tail [] ys c = (start, refl, c)
Chain-split node start prev tail (x ∷ xs) ys (s, p, c) =
    let (stop, g, r) = Chain-split node (node x).next (some x) tail xs ys c in (stop, (s, p, g), r)

pub Chain-join :
    (node : ℕ → Node) (start prev stop tail : Option ℕ) (xs ys : List ℕ)
    → Segment node start prev xs stop
    → Chain node stop (last_of prev xs) ys tail
    → Chain node start prev (xs ++ ys) tail
Chain-join node start prev stop tail [] ys g c = subst (λ o. Chain node o prev ys tail) (sym g) c
Chain-join node start prev stop tail (x ∷ xs) ys (s, p, g) c =
    (s, p, Chain-join node (node x).next (some x) stop tail xs ys g c)

pub Segment-agree :
    (node node' : ℕ → Node) (start prev stop : Option ℕ) (xs : List ℕ)
    → All (λ x. node' x ≡ node x) xs
    → Segment node start prev xs stop
    → Segment node' start prev xs stop
Segment-agree node node' start prev stop [] h g = g
Segment-agree node node' start prev stop (x ∷ xs) (h, hs) (s, p, g) = (
  s,
  ap (λ n. n.prev) h ∙ p,
  subst (λ n. Segment node' n.next (some x) xs stop) (sym h)
      (Segment-agree node node' (node x).next (some x) stop xs hs g),
)

-- A write of the last link of a segment leads it elsewhere.
pub Segment-redirect :
    (node : ℕ → Node) (start prev stop v : Option ℕ) (x : ℕ) (xs : List ℕ)
    → NoDup (x ∷ xs)
    → Segment node start prev (x ∷ xs) stop
    → Segment (write (last_from x xs) (to_next v) node) start prev (x ∷ xs) v
Segment-redirect node start prev stop v x [] nd (s, p, g) =
    let at_x = write_same x (to_next v) node in
    (s, ap (λ n. n.prev) at_x ∙ p, ap (λ n. n.next) at_x)
Segment-redirect node start prev stop v x (y ∷ ys) (d, nd) (s, p, g) =
    let z = last_from y ys in
    let at_x : write z (to_next v) node x ≡ node x =
      write_other z x (to_next v) node (λ e. last_from-All (λ w. w ≢ x) y ys d (sym e)) in
    (
      s,
      ap (λ n. n.prev) at_x ∙ p,
      subst (λ n. Segment (write z (to_next v) node) n.next (some x) (y ∷ ys) v) (sym at_x)
          (Segment-redirect node (node x).next (some x) stop v y ys nd g),
    )

-- A write of the first timer's link back.
pub Chain-behind :
    (node : ℕ → Node) (start prev v tail : Option ℕ) (y : ℕ) (ys : List ℕ)
    → Differ y ys
    → Chain node start prev (y ∷ ys) tail
    → Chain (write y (to_prev v) node) start v (y ∷ ys) tail
Chain-behind node start prev v tail y ys d (s, p, c) =
    let at_y = write_same y (to_prev v) node in
    let same =
      agree_outside node (write y (to_prev v) node) ys (λ w. w ≢ y)
        (λ w h. write_other y w (to_prev v) node h) d in
    (
      s,
      ap (λ n. n.prev) at_y,
      subst (λ n. Chain (write y (to_prev v) node) n.next (some y) ys tail) (sym at_y)
          (Chain-agree node (write y (to_prev v) node) (node y).next (some y) tail ys same c),
    )

pub All-weaken : (P Q : ℕ → Type 0) → ((x : ℕ) → P x → Q x) → (xs : List ℕ) → All P xs → All Q xs
All-weaken P Q f [] h = tt
All-weaken P Q f (x ∷ xs) (h, hs) = (f x h, All-weaken P Q f xs hs)

pub All-split : (P : ℕ → Type 0) (xs ys : List ℕ) → All P (xs ++ ys) → All P xs × All P ys
All-split P [] ys h = (tt, h)
All-split P (x ∷ xs) ys (h, hs) = let (a, b) = All-split P xs ys hs in ((h, a), b)

-- No timer of the one list stands in the other.
abbrev pub Disjoint : List ℕ → List ℕ → Type 0
Disjoint xs ys = All (λ x. Differ x ys) xs

pub NoDup-split : (xs ys : List ℕ) → NoDup (xs ++ ys) → NoDup xs × NoDup ys × Disjoint xs ys
NoDup-split [] ys h = (tt, h, tt)
NoDup-split (x ∷ xs) ys (d, nd) =
    let (a, b) = All-split (λ y. y ≢ x) xs ys d in
    let (p, q, r) = NoDup-split xs ys nd in ((a, p), q, (b, r))

pub NoDup-join : (xs ys : List ℕ) → NoDup xs → NoDup ys → Disjoint xs ys → NoDup (xs ++ ys)
NoDup-join [] ys p q r = q
NoDup-join (x ∷ xs) ys (d, p) q (b, r) = (All-append (λ y. y ≢ x) xs ys d b, NoDup-join xs ys p q r)
