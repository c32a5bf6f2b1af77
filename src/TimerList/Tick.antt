-- ===== src/TimerList/Tick.antt =====
-- `tick` of lst_timer.h calls the timers that are due.
use unix_network_programming.Base.{
  ℕ, zero, suc, ◌≤◌, ◌<◌, ◌≡◌, ◌≢◌, refl, sym, ap, ap₂, subst, ◌∙◌, List, [], ◌∷◌, ◌++◌, append-nil,
  append_assoc, length, Bool, true, false, Option, none, some, ltb, if◌then◌else◌, then_branch,
  else_branch, All, arith,
}
use std.Path.{fun_ext}
use mathlib.Core.Option.{some-injective, none-ne-some, some-ne-none}
use unix_network_programming.TimerList.{Timers, write, new_head, expired, tick_loop, tick}
use unix_network_programming.TimerList.Chains.{
  write_same, write_other, Chain, NoDup, Sorted, expire_of, Chain-agree, agree_outside,
}
use unix_network_programming.TimerList.Insert.{IsList}
use unix_network_programming.TimerList.Links.{to_prev, write-expire}

-- The timers that are due at `cur`, from the front on, and the others.
abbrev pub due : (ℕ → ℕ) → ℕ → List ℕ → List ℕ
due e cur [] = []
due e cur (x ∷ xs) = let rest = x ∷ due e cur xs in if ltb cur (e x) then [] else rest

abbrev pub pending : (ℕ → ℕ) → ℕ → List ℕ → List ℕ
pending e cur [] = []
pending e cur (x ∷ xs) = let rest = pending e cur xs in if ltb cur (e x) then x ∷ xs else rest

abbrev pub Ticked : ℕ → List ℕ → Timers → Option Timers → Type 0
Ticked cur xs s r =
    (s' : Timers) × (r ≡ some s')
    × IsList s' (pending (expire_of s.node) cur xs)
    × (s'.called ≡ s.called ++ due (expire_of s.node) cur xs)
    × (s'.deleted ≡ s.deleted ++ due (expire_of s.node) cur xs)

-- The list without its first timer.
new_head-Chain :
    (x : ℕ) (start : Option ℕ) (xs : List ℕ) (s : Timers)
    → Chain s.node start (some x) xs s.tail
    → NoDup xs
    → (Chain (new_head start s).node start none xs s.tail
        × ((new_head start s).head ≡ start)
        × ((y : ℕ) → expire_of (new_head start s).node y ≡ expire_of s.node y))
new_head-Chain x none [] s (e, l) nd = ((refl, tt), refl, λ y. refl)
new_head-Chain x none (y ∷ ys) s (e, p, c) nd = absurd (none-ne-some y e)
new_head-Chain x (some z) [] s (e, l) nd = absurd (some-ne-none z e)
new_head-Chain x (some z) (y ∷ ys) s (e, p, c) (d, nd) =
    let same = some-injective z y e in
    subst
      (λ w.
        Chain (write w (to_prev none) s.node) (some w) none (y ∷ ys) s.tail
        × (some w ≡ some w)
        × ((v : ℕ) → expire_of (write w (to_prev none) s.node) v ≡ expire_of s.node v))
      (sym same)
      (let n1 = write y (to_prev none) s.node in
        let at_y : n1 y ≡ to_prev none (s.node y) = write_same y (to_prev none) s.node in
        let rest =
          agree_outside s.node n1 ys (λ v. v ≢ y) (λ v q. write_other y v (to_prev none) s.node q)
            d in
        (
          (
            refl,
            ap (λ n. n.prev) at_y,
            subst (λ n. Chain n1 n.next (some y) ys s.tail) (sym at_y)
                (Chain-agree s.node n1 (s.node y).next (some y) s.tail ys rest c),
          ),
          refl,
          λ v. write-expire y (to_prev none) s.node v (λ n. refl),
        ))

if_Ticked :
    (cur : ℕ) (xs : List ℕ) (s : Timers) (b : Bool) (x y : Option Timers)
    → (b ≡ true → Ticked cur xs s x)
    → (b ≡ false → Ticked cur xs s y)
    → Ticked cur xs s (if b then x else y)
if_Ticked cur xs s true x y h k = h refl
if_Ticked cur xs s false x y h k = k refl

stops-Ticked :
    (cur x : ℕ) (xs : List ℕ) (s : Timers)
    → ltb cur (expire_of s.node x) ≡ true
    → IsList s (x ∷ xs)
    → Ticked cur (x ∷ xs) s (some s)
stops-Ticked cur x xs s b c =
    let b' = ltb cur (expire_of s.node x) in
    let no_due : due (expire_of s.node) cur (x ∷ xs) ≡ [] = then_branch {b = b'} _ _ b in
    (
      s,
      refl,
      subst (IsList s) (sym (then_branch {b = b'} _ _ b)) c,
      sym (append-nil s.called) ∙ ap (s.called ++◌) (sym no_due),
      sym (append-nil s.deleted) ∙ ap (s.deleted ++◌) (sym no_due),
    )

goes_on-Ticked :
    (cur x : ℕ) (xs : List ℕ) (s : Timers) (r : Option Timers)
    → ltb cur (expire_of s.node x) ≡ false
    → ((y : ℕ) → expire_of (expired x s).node y ≡ expire_of s.node y)
    → (expired x s).called ≡ s.called ++ x ∷ []
    → (expired x s).deleted ≡ s.deleted ++ x ∷ []
    → Ticked cur xs (expired x s) r
    → Ticked cur (x ∷ xs) s r
goes_on-Ticked cur x xs s r b ex called deleted (s', p, l, c, d) =
    let b' = ltb cur (expire_of s.node x) in
    let same : expire_of (expired x s).node ≡ expire_of s.node = fun_ext ex in
    let due_x : due (expire_of s.node) cur (x ∷ xs) ≡ x ∷ due (expire_of s.node) cur xs =
      else_branch {b = b'} _ _ b in
    let joined : (ys : List ℕ)
        → (ys ++ x ∷ []) ++ due (expire_of s.node) cur xs
          ≡ ys ++ due (expire_of s.node) cur (x ∷ xs) =
      λ ys. append_assoc ys (x ∷ []) (due (expire_of s.node) cur xs) ∙ ap (ys ++◌) (sym due_x) in
    (
      s',
      p,
      subst (IsList s') (ap (λ e. pending e cur xs) same ∙ sym (else_branch {b = b'} _ _ b)) l,
      c ∙ ap₂ (λ ys e. ys ++ due e cur xs) called same ∙ joined s.called,
      d ∙ ap₂ (λ ys e. ys ++ due e cur xs) deleted same ∙ joined s.deleted,
    )

new_head_called :
    (o : Option ℕ) (s : Timers)
    → ((new_head o s).called ≡ s.called)
      × ((new_head o s).deleted ≡ s.deleted)
      × ((new_head o s).tail ≡ s.tail)
new_head_called none s = (refl, refl, refl)
new_head_called (some x) s = (refl, refl, refl)

tick_loop-Ticked :
    (fuel cur : ℕ) (start : Option ℕ) (xs : List ℕ) (s : Timers)
    → length xs ≤ fuel
    → s.head ≡ start
    → Chain s.node start none xs s.tail
    → NoDup xs
    → Ticked cur xs s (tick_loop fuel cur start s)
unfolding tick_loop
tick_loop-Ticked fuel cur none [] s l q c nd = (
  s,
  refl,
  (subst (λ o. Chain s.node o none [] s.tail) (sym q) c, tt),
  sym (append-nil s.called),
  sym (append-nil s.deleted),
)
tick_loop-Ticked fuel cur none (x ∷ xs) s l q (e, v, c) nd = absurd (none-ne-some x e)
tick_loop-Ticked fuel cur (some y) [] s l q (e, c) nd = absurd (some-ne-none y e)
tick_loop-Ticked zero cur (some y) (x ∷ xs) s l q c nd = absurd (omega arith)
tick_loop-Ticked (suc fuel) cur (some y) (x ∷ xs) s l q (e, v, c) (d, nd) =
    let first : IsList s (x ∷ xs) = ((q ∙ e, v, c), (d, nd)) in
    let s0 : Timers = record s { called = s.called ++ x ∷ [] } in
    let (ch, hd, ex) = new_head-Chain x (s.node x).next xs s0 c nd in
    let (cl, dl, tl) = new_head_called (s.node x).next s0 in
    subst
      (λ z. Ticked cur (x ∷ xs) s (
        if ltb cur (expire_of s.node z)
        then some s
        else tick_loop fuel cur (s.node z).next (expired z s)))
      (sym (some-injective y x e))
      (if_Ticked cur (x ∷ xs) s (ltb cur (expire_of s.node x)) (some s) _
        (λ b. stops-Ticked cur x xs s b first)
        (λ b. goes_on-Ticked cur x xs s _ b ex cl (ap (λ ys. ys ++ x ∷ []) dl) (
          tick_loop-Ticked fuel cur (s.node x).next xs (expired x s) (omega arith) hd
            (subst (Chain (expired x s).node (s.node x).next none xs) (sym tl) ch) nd)))

All-due : (e : ℕ → ℕ) (cur : ℕ) (xs : List ℕ) → All (λ x. e x ≤ cur) (due e cur xs)
All-due e cur [] = tt
All-due e cur (x ∷ xs) =
    if_All (ltb cur (e x)) [] (x ∷ due e cur xs) (λ b. tt) (λ b. (ground arith, All-due e cur xs))
  where
    if_All :
        (b : Bool) (u v : List ℕ)
        → (b ≡ true → All (λ x. e x ≤ cur) u)
        → (b ≡ false → All (λ x. e x ≤ cur) v)
        → All (λ x. e x ≤ cur) (if b then u else v)
    if_All true u v p q = p refl
    if_All false u v p q = q refl

All-beyond :
    (e : ℕ → ℕ) (cur n : ℕ) (xs : List ℕ)
    → cur < n
    → All (λ y. n ≤ e y) xs
    → All (λ y. cur < e y) xs
All-beyond e cur n [] l h = tt
All-beyond e cur n (x ∷ xs) l (h, hs) = (omega arith, All-beyond e cur n xs l hs)

All-pending :
    (e : ℕ → ℕ) (cur : ℕ) (xs : List ℕ) → Sorted e xs → All (λ x. cur < e x) (pending e cur xs)
All-pending e cur [] h = tt
All-pending e cur (x ∷ xs) (h, hs) =
    if_All (ltb cur (e x)) (x ∷ xs) (pending e cur xs)
      (λ b. (ground arith, All-beyond e cur (e x) xs (ground arith) h))
      (λ b. All-pending e cur xs hs)
  where
    if_All :
        (b : Bool) (u v : List ℕ)
        → (b ≡ true → All (λ x. cur < e x) u)
        → (b ≡ false → All (λ x. cur < e x) v)
        → All (λ x. cur < e x) (if b then u else v)
    if_All true u v p q = p refl
    if_All false u v p q = q refl

-- Of a sorted list tick calls the timers that expire at `cur` or before, once each and in order, deletes
-- them, and leaves the list of the others, all of which expire later. As many rounds as the list has
-- timers are enough.
pub tick_lem :
    (fuel cur : ℕ) (xs : List ℕ) (s : Timers)
    → length xs ≤ fuel
    → IsList s xs
    → Sorted (expire_of s.node) xs
    → Ticked cur xs s (tick fuel cur s)
      × All (λ x. expire_of s.node x ≤ cur) (due (expire_of s.node) cur xs)
      × All (λ x. cur < expire_of s.node x) (pending (expire_of s.node) cur xs)
unfolding tick
tick_lem fuel cur xs s l (c, nd) so =
    let e = expire_of s.node in
    (tick_loop-Ticked fuel cur s.head xs s l refl c nd, All-due e cur xs, All-pending e cur xs so)
