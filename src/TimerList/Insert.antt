-- ===== src/TimerList/Insert.antt =====
-- `add_timer` of lst_timer.h puts the timer in its place.
use unix_network_programming.Base.{
  ℕ, zero, suc, ◌≤◌, ◌≡◌, ◌≢◌, refl, sym, ap, subst, ◌∙◌, List, [], ◌∷◌, length, Bool, true, false,
  Option, none, some, ltb, if◌then◌else◌, then_branch, else_branch, All, arith,
}
use mathlib.Core.Option.{some-injective, none-ne-some, some-ne-none}
use unix_network_programming.TimerList.{
  Timers, write, link, insert_after, push_front, add_to, add_timer,
}
use unix_network_programming.TimerList.Chains.{
  write_same, write_other, Chain, Differ, NoDup, Sorted, expire_of, Chain-agree, agree_outside,
}
use unix_network_programming.TimerList.Links.{
  insert, Inserted, write-expire, to_next, to_prev, append-Inserted, link-Inserted,
}

if_Inserted :
    (t p : ℕ) (xs : List ℕ) (s : Timers) (b : Bool) (x y : Option Timers)
    → (b ≡ true → Inserted t p xs s x)
    → (b ≡ false → Inserted t p xs s y)
    → Inserted t p xs s (if b then x else y)
if_Inserted t p xs s true x y h k = h refl
if_Inserted t p xs s false x y h k = k refl

-- From the timer `p` on, whose successors are `xs`.
pub insert_after-Inserted :
    (fuel t p : ℕ) (tmp : Option ℕ) (xs : List ℕ) (s : Timers)
    → length xs ≤ fuel
    → (s.node p).next ≡ tmp
    → Chain s.node tmp (some p) xs s.tail
    → p ≢ t
    → Differ t xs
    → Differ p xs
    → NoDup xs
    → Inserted t p xs s (insert_after fuel t p tmp s)
unfolding insert_after
insert_after-Inserted fuel t p none [] s l q c d dt dp nd = append-Inserted t p s d
insert_after-Inserted fuel t p none (x ∷ xs) s l q (e, v, c) d dt dp nd = absurd (none-ne-some x e)
insert_after-Inserted fuel t p (some tmp) [] s l q (e, c) d dt dp nd = absurd (some-ne-none tmp e)
insert_after-Inserted zero t p (some tmp) (x ∷ xs) s l q c d dt dp nd = absurd (omega arith)
insert_after-Inserted (suc fuel) t p (some tmp) (x ∷ xs) s l q (e, v, c) d (xt, dt) (xp, dp)
      (dx, nd) =
    let same : tmp ≡ x = some-injective tmp x e in
    subst
      (λ y. Inserted t p (x ∷ xs) s (
        if ltb (expire_of s.node t) (expire_of s.node y)
        then some (link t p y s)
        else insert_after fuel t y (s.node y).next s))
      (sym same)
      (if_Inserted t p (x ∷ xs) s (ltb (expire_of s.node t) (expire_of s.node x))
        (some (link t p x s)) _ (λ b. link-Inserted t p x xs s d xt xp dt dp dx b c)
        (λ b.
          let (s', r, ch, pr, same', ex, hd) =
            insert_after-Inserted fuel t x (s.node x).next xs s (omega arith) refl c xt dt dx nd in
          let at_p : s'.node p ≡ s.node p = same' p ((λ o. xp (sym o)), d, dp) in
          (
            s',
            r,
            subst (λ l'. Chain s'.node (s'.node p).next (some p) l' s'.tail)
                (sym (else_branch {b = ltb (expire_of s.node t) (expire_of s.node x)} _ _ b))
                (ap (λ n. n.next) at_p ∙ q ∙ e, pr ∙ v, ch),
            ap (λ n. n.prev) at_p,
            (λ y (a, b', (f, g)). same' y ((λ o. f (sym o)), b', g)),
            ex,
            hd,
          )))

-- The list of the timers.
abbrev pub IsList : Timers → List ℕ → Type 0
IsList s xs = Chain s.node s.head none xs s.tail × NoDup xs

-- The list with the timer in its place.
abbrev pub Added : ℕ → List ℕ → Timers → Option Timers → Type 0
Added t xs s r =
    (s' : Timers) × (r ≡ some s')
    × Chain s'.node s'.head none (insert (expire_of s.node) t xs) s'.tail
    × ((y : ℕ) → expire_of s'.node y ≡ expire_of s.node y)

if_Added :
    (t : ℕ) (xs : List ℕ) (s : Timers) (b : Bool) (x y : Option Timers)
    → (b ≡ true → Added t xs s x)
    → (b ≡ false → Added t xs s y)
    → Added t xs s (if b then x else y)
if_Added t xs s true x y h k = h refl
if_Added t xs s false x y h k = k refl

push_front-Added :
    (t x : ℕ) (xs : List ℕ) (s : Timers)
    → x ≢ t
    → Differ t xs
    → Differ x xs
    → (s.node t).prev ≡ none
    → ltb (expire_of s.node t) (expire_of s.node x) ≡ true
    → Chain s.node (s.node x).next (some x) xs s.tail
    → Added t (x ∷ xs) s (some (push_front t x s))
push_front-Added t x xs s d dt dx v b c =
    let h = s.node in
    let n1 = write t (to_next (some x)) h in
    let n2 = write x (to_prev (some t)) n1 in
    let at_t : n2 t ≡ to_next (some x) (h t) =
      write_other x t (to_prev (some t)) n1 (λ e. d (sym e)) ∙ write_same t (to_next (some x)) h in
    let at_x : n2 x ≡ to_prev (some t) (h x) =
      write_same x (to_prev (some t)) n1
      ∙ ap (to_prev (some t)) (write_other t x (to_next (some x)) h d) in
    let same : (y : ℕ) → (y ≢ t) × (y ≢ x) → n2 y ≡ h y = λ y (e, f).
      write_other x y (to_prev (some t)) n1 f ∙ write_other t y (to_next (some x)) h e in
    let rest = agree_outside h n2 xs (λ y. (y ≢ t) × (y ≢ x)) same (both t x xs dt dx) in
    let chain : Chain n2 (some t) none (t ∷ x ∷ xs) s.tail = (
      refl,
      ap (λ n. n.prev) at_t ∙ v,
      (
        ap (λ n. n.next) at_t,
        ap (λ n. n.prev) at_x,
        subst (λ n. Chain n2 n.next (some x) xs s.tail) (sym at_x)
            (Chain-agree h n2 (h x).next (some x) s.tail xs rest c),
      ),
    ) in
    (
      push_front t x s,
      refl,
      subst (λ l. Chain n2 (some t) none l s.tail)
          (sym (then_branch {b = ltb (expire_of h t) (expire_of h x)} _ _ b)) chain,
      (λ y.
          write-expire x (to_prev (some t)) n1 y (λ n. refl)
          ∙ write-expire t (to_next (some x)) h y (λ n. refl)),
    )
  where
    both : (t x : ℕ) (xs : List ℕ) → Differ t xs → Differ x xs → All (λ y. (y ≢ t) × (y ≢ x)) xs
    both t x [] a b = tt
    both t x (y ∷ ys) (a, as') (b, bs) = ((a, b), both t x ys as' bs)

add_to-Added :
    (fuel t : ℕ) (head : Option ℕ) (xs : List ℕ) (s : Timers)
    → length xs ≤ fuel
    → s.head ≡ head
    → Chain s.node head none xs s.tail
    → NoDup xs
    → Differ t xs
    → (s.node t).prev ≡ none
    → (s.node t).next ≡ none
    → Added t xs s (add_to fuel t head s)
unfolding add_to
add_to-Added fuel t none [] s l q c nd dt v w =
    (record s { head = some t; tail = some t }, refl, (refl, v, (w, refl)), (λ y. refl))
add_to-Added fuel t none (x ∷ xs) s l q (e, u, c) nd dt v w = absurd (none-ne-some x e)
add_to-Added fuel t (some y) [] s l q (e, c) nd dt v w = absurd (some-ne-none y e)
add_to-Added fuel t (some y) (x ∷ xs) s l q (e, u, c) (dx, nd) (xt, dt) v w =
    subst
      (λ z. Added t (x ∷ xs) s (
        if ltb (expire_of s.node t) (expire_of s.node z)
        then some (push_front t z s)
        else insert_after fuel t z (s.node z).next s))
      (sym (some-injective y x e))
      (if_Added t (x ∷ xs) s (ltb (expire_of s.node t) (expire_of s.node x))
        (some (push_front t x s)) _ (λ b. push_front-Added t x xs s xt dt dx v b c)
        (λ b.
          let (s', r, ch, pr, same, ex, hd) =
            insert_after-Inserted fuel t x (s.node x).next xs s (omega arith) refl c xt dt dx nd in
          (
            s',
            r,
            subst (λ l'. Chain s'.node s'.head none l' s'.tail)
                (sym (else_branch {b = ltb (expire_of s.node t) (expire_of s.node x)} _ _ b))
                (hd ∙ q ∙ e, pr ∙ u, ch),
            ex,
          )))

pub insert-Differ :
    (e : ℕ → ℕ) (t y : ℕ) (xs : List ℕ) → t ≢ y → Differ y xs → Differ y (insert e t xs)
insert-Differ e t y [] d h = (d, tt)
insert-Differ e t y (x ∷ xs) d (h, hs) =
    if_Differ (ltb (e t) (e x)) (t ∷ x ∷ xs) (x ∷ insert e t xs) (d, (h, hs))
      (h, insert-Differ e t y xs d hs)
  where
    if_Differ : (b : Bool) (u v : List ℕ) → Differ y u → Differ y v → Differ y (if b then u else v)
    if_Differ true u v p q = p
    if_Differ false u v p q = q

pub insert-NoDup :
    (e : ℕ → ℕ) (t : ℕ) (xs : List ℕ) → Differ t xs → NoDup xs → NoDup (insert e t xs)
insert-NoDup e t [] d h = (tt, tt)
insert-NoDup e t (x ∷ xs) (d, ds) (h, hs) =
    if_NoDup (ltb (e t) (e x)) (t ∷ x ∷ xs) (x ∷ insert e t xs) ((d, ds), (h, hs))
      (insert-Differ e t x xs (λ q. d (sym q)) h, insert-NoDup e t xs ds hs)
  where
    if_NoDup : (b : Bool) (u v : List ℕ) → NoDup u → NoDup v → NoDup (if b then u else v)
    if_NoDup true u v p q = p
    if_NoDup false u v p q = q

All-later :
    (e : ℕ → ℕ) (m n : ℕ) (xs : List ℕ) → m ≤ n → All (λ y. n ≤ e y) xs → All (λ y. m ≤ e y) xs
All-later e m n [] l h = tt
All-later e m n (x ∷ xs) l (h, hs) = (omega arith, All-later e m n xs l hs)

pub insert-All :
    (e : ℕ → ℕ) (m t : ℕ) (xs : List ℕ)
    → m ≤ e t
    → All (λ y. m ≤ e y) xs
    → All (λ y. m ≤ e y) (insert e t xs)
insert-All e m t [] l h = (l, tt)
insert-All e m t (x ∷ xs) l (h, hs) =
    if_All (ltb (e t) (e x)) (t ∷ x ∷ xs) (x ∷ insert e t xs) (l, (h, hs))
      (h, insert-All e m t xs l hs)
  where
    if_All :
        (b : Bool) (u v : List ℕ)
        → All (λ y. m ≤ e y) u
        → All (λ y. m ≤ e y) v
        → All (λ y. m ≤ e y) (if b then u else v)
    if_All true u v p q = p
    if_All false u v p q = q

pub insert-Sorted : (e : ℕ → ℕ) (t : ℕ) (xs : List ℕ) → Sorted e xs → Sorted e (insert e t xs)
insert-Sorted e t [] h = (tt, tt)
insert-Sorted e t (x ∷ xs) (h, hs) =
    if_Sorted (ltb (e t) (e x)) (t ∷ x ∷ xs) (x ∷ insert e t xs)
      (λ b. ((ground arith, All-later e (e t) (e x) xs (ground arith) h), (h, hs)))
      (λ b. (insert-All e (e x) t xs (ground arith) h, insert-Sorted e t xs hs))
  where
    if_Sorted :
        (b : Bool) (u v : List ℕ)
        → (b ≡ true → Sorted e u)
        → (b ≡ false → Sorted e v)
        → Sorted e (if b then u else v)
    if_Sorted true u v p q = p refl
    if_Sorted false u v p q = q refl

-- A timer that is not yet in the list, and whose links are NULL, stands behind add_timer in the list
-- before the first timer that expires later, so that a sorted list stays sorted, and all links lead both
-- ways again. As many rounds as the list has timers are enough.
pub add_timer_lem :
    (fuel t : ℕ) (xs : List ℕ) (s : Timers)
    → length xs ≤ fuel
    → IsList s xs
    → Sorted (expire_of s.node) xs
    → Differ t xs
    → (s.node t).prev ≡ none
    → (s.node t).next ≡ none
    → (s' : Timers) × (add_timer fuel (some t) s ≡ some s')
      × IsList s' (insert (expire_of s.node) t xs)
      × Sorted (expire_of s.node) (insert (expire_of s.node) t xs)
      × ((y : ℕ) → expire_of s'.node y ≡ expire_of s.node y)
unfolding add_timer
add_timer_lem fuel t xs s l (c, nd) so dt v w =
    let e = expire_of s.node in
    let (s', r, ch, ex) = add_to-Added fuel t s.head xs s l refl c nd dt v w in
    (s', r, (ch, insert-NoDup e t xs dt nd), insert-Sorted e t xs so, ex)
