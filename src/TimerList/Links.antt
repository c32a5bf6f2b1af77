-- ===== src/TimerList/Links.antt =====
-- What the two ends of the loop of add_timer leave in TimerList.
use unix_network_programming.Base.{
  ℕ, ◌≡◌, ◌≢◌, refl, sym, ap, subst, ◌∙◌, List, [], ◌∷◌, Bool, true, false, Option, none, some,
  ◌==◌, ltb, if◌then◌else◌, then_branch, All,
}
use unix_network_programming.TimerList.{Node, Timers, write, link, append}
use unix_network_programming.TimerList.Chains.{
  write_same, write_other, Chain, Differ, expire_of, Chain-agree, agree_outside,
}

-- Behind the timers that do not expire later.
abbrev pub insert : (ℕ → ℕ) → ℕ → List ℕ → List ℕ
insert e t [] = t ∷ []
insert e t (x ∷ xs) = let rest = x ∷ insert e t xs in if ltb (e t) (e x) then t ∷ x ∷ xs else rest

-- What the loop leaves: the list from the timer `p` on, and all else as it was.
abbrev pub Inserted : ℕ → ℕ → List ℕ → Timers → Option Timers → Type 0
Inserted t p xs s r =
    (s' : Timers) × (r ≡ some s')
    × Chain s'.node (s'.node p).next (some p) (insert (expire_of s.node) t xs) s'.tail
    × ((s'.node p).prev ≡ (s.node p).prev)
    × ((y : ℕ) → (y ≢ p) × (y ≢ t) × Differ y xs → s'.node y ≡ s.node y)
    × ((y : ℕ) → expire_of s'.node y ≡ expire_of s.node y)
    × (s'.head ≡ s.head)

-- No write of a link changes when a timer expires.
pub write-expire :
    (a : ℕ) (f : Node → Node) (node : ℕ → Node) (y : ℕ)
    → ((n : Node) → (f n).expire ≡ n.expire)
    → expire_of (write a f node) y ≡ expire_of node y
write-expire a f node y h = if_expire (y == a)
  where
    if_expire : (b : Bool) → (if b then f (node y) else node y).expire ≡ (node y).expire
    if_expire true = h (node y)
    if_expire false = refl

abbrev pub to_next : Option ℕ → Node → Node
to_next v n = record n { next = v }

abbrev pub to_prev : Option ℕ → Node → Node
to_prev v n = record n { prev = v }

pub append-Inserted : (t p : ℕ) (s : Timers) → p ≢ t → Inserted t p [] s (some (append t p s))
append-Inserted t p s d =
    let h = s.node in
    let n1 = write p (to_next (some t)) h in
    let n2 = write t (to_prev (some p)) n1 in
    let n3 = write t (to_next none) n2 in
    let at_p : n3 p ≡ to_next (some t) (h p) =
      write_other t p (to_next none) n2 d
      ∙ write_other t p (to_prev (some p)) n1 d
      ∙ write_same p (to_next (some t)) h in
    let at_t : n3 t ≡ record (h t) { next = none; prev = some p } =
      write_same t (to_next none) n2
      ∙ ap (to_next none) (write_same t (to_prev (some p)) n1)
      ∙ ap (λ n. to_next none (to_prev (some p) n))
          (write_other p t (to_next (some t)) h (λ e. d (sym e))) in
    (
      append t p s,
      refl,
      (ap (λ n. n.next) at_p, ap (λ n. n.prev) at_t, (ap (λ n. n.next) at_t, refl)),
      ap (λ n. n.prev) at_p,
      (λ y (a, b, c).
          write_other t y (to_next none) n2 b
          ∙ write_other t y (to_prev (some p)) n1 b
          ∙ write_other p y (to_next (some t)) h a),
      (λ y.
          write-expire t (to_next none) n2 y (λ n. refl)
          ∙ write-expire t (to_prev (some p)) n1 y (λ n. refl)
          ∙ write-expire p (to_next (some t)) h y (λ n. refl)),
      refl,
    )

pub link-Inserted :
    (t p x : ℕ) (xs : List ℕ) (s : Timers)
    → p ≢ t
    → x ≢ t
    → x ≢ p
    → Differ t xs
    → Differ p xs
    → Differ x xs
    → ltb (expire_of s.node t) (expire_of s.node x) ≡ true
    → Chain s.node (s.node x).next (some x) xs s.tail
    → Inserted t p (x ∷ xs) s (some (link t p x s))
link-Inserted t p x xs s d xt xp dt dp dx b c =
    let h = s.node in
    let n1 = write p (to_next (some t)) h in
    let n2 = write t (to_next (some x)) n1 in
    let n3 = write x (to_prev (some t)) n2 in
    let n4 = write t (to_prev (some p)) n3 in
    let at_p : n4 p ≡ to_next (some t) (h p) =
      write_other t p (to_prev (some p)) n3 d
      ∙ write_other x p (to_prev (some t)) n2 (λ e. xp (sym e))
      ∙ write_other t p (to_next (some x)) n1 d
      ∙ write_same p (to_next (some t)) h in
    let at_t : n4 t ≡ record (h t) { next = some x; prev = some p } =
      write_same t (to_prev (some p)) n3
      ∙ ap (to_prev (some p)) (
          write_other x t (to_prev (some t)) n2 (λ e. xt (sym e))
          ∙ write_same t (to_next (some x)) n1)
      ∙ ap (λ n. to_prev (some p) (to_next (some x) n))
          (write_other p t (to_next (some t)) h (λ e. d (sym e))) in
    let at_x : n4 x ≡ to_prev (some t) (h x) =
      write_other t x (to_prev (some p)) n3 xt
      ∙ write_same x (to_prev (some t)) n2
      ∙ ap (to_prev (some t))
          (write_other t x (to_next (some x)) n1 xt ∙ write_other p x (to_next (some t)) h xp) in
    let same : (y : ℕ) → (y ≢ p) × (y ≢ t) × (y ≢ x) → n4 y ≡ h y = λ y (a, e, f).
      write_other t y (to_prev (some p)) n3 e
      ∙ write_other x y (to_prev (some t)) n2 f
      ∙ write_other t y (to_next (some x)) n1 e
      ∙ write_other p y (to_next (some t)) h a in
    let rest =
      agree_outside h n4 xs (λ y. (y ≢ p) × (y ≢ t) × (y ≢ x)) same (all_three p t x xs dp dt dx) in
    let chain : Chain n4 (n4 p).next (some p) (t ∷ x ∷ xs) s.tail = (
      ap (λ n. n.next) at_p,
      ap (λ n. n.prev) at_t,
      (
        ap (λ n. n.next) at_t,
        ap (λ n. n.prev) at_x,
        subst (λ n. Chain n4 n.next (some x) xs s.tail) (sym at_x)
            (Chain-agree h n4 (h x).next (some x) s.tail xs rest c),
      ),
    ) in
    (
      link t p x s,
      refl,
      subst (λ l. Chain n4 (n4 p).next (some p) l s.tail)
          (sym (then_branch {b = ltb (expire_of h t) (expire_of h x)} _ _ b)) chain,
      ap (λ n. n.prev) at_p,
      (λ y (a, e, (f, g)). same y (a, e, (λ q. f (sym q)))),
      (λ y.
          write-expire t (to_prev (some p)) n3 y (λ n. refl)
          ∙ write-expire x (to_prev (some t)) n2 y (λ n. refl)
          ∙ write-expire t (to_next (some x)) n1 y (λ n. refl)
          ∙ write-expire p (to_next (some t)) h y (λ n. refl)),
      refl,
    )
  where
    all_three :
        (p t x : ℕ) (xs : List ℕ)
        → Differ p xs
        → Differ t xs
        → Differ x xs
        → All (λ y. (y ≢ p) × (y ≢ t) × (y ≢ x)) xs
    all_three p t x [] a b c = tt
    all_three p t x (y ∷ ys) (a, as') (b, bs) (c, cs) = ((a, b, c), all_three p t x ys as' bs cs)
