-- ===== src/TimerList/Adjust.antt =====
-- `adjust_timer` of lst_timer.h moves a timer behind those that now expire before it.
use unix_network_programming.Base.{
  ℕ, ◌≤◌, ◌≡◌, ◌≢◌, refl, sym, ap, subst, ◌∙◌, List, [], ◌∷◌, ◌++◌, length, Bool, true, false,
  Option, none, some, ltb, if◌then◌else◌, then_branch, else_branch, All, All-append, arith,
}
use std.Path.{fun_ext}
use unix_network_programming.TimerList.{
  Timers, write, set_next, set_prev, names, and_then, insert_after, move_back, adjust_before,
  adjust_timer,
}
use unix_network_programming.TimerList.Chains.{
  write_other, Chain, Differ, NoDup, Sorted, expire_of, Chain-agree, agree_outside,
}
use unix_network_programming.TimerList.Links.{insert, write-expire, to_next, to_prev}
use unix_network_programming.TimerList.Insert.{
  insert_after-Inserted, IsList, insert-Differ, insert-NoDup, insert-All, insert-Sorted,
}
use unix_network_programming.TimerList.Segments.{
  Segment, Chain-split, Chain-join, Segment-agree, Chain-behind, All-weaken, NoDup-split, All-split,
}
use unix_network_programming.TimerList.Delete.{names_it, names_other, unlink_lem}

-- The list with these timers, which expire as before.
abbrev pub Moved : List ℕ → Timers → Option Timers → Type 0
Moved zs s r =
    (s' : Timers) × (r ≡ some s')
    × Chain s'.node s'.head none zs s'.tail
    × ((y : ℕ) → expire_of s'.node y ≡ expire_of s.node y)

if_Moved :
    (zs : List ℕ) (s : Timers) (b : Bool) (x y : Option Timers)
    → (b ≡ true → Moved zs s x)
    → (b ≡ false → Moved zs s y)
    → Moved zs s (if b then x else y)
if_Moved zs s true x y h k = h refl
if_Moved zs s false x y h k = k refl

first-Moved :
    (fuel t y : ℕ) (ys : List ℕ) (s : Timers)
    → length ys ≤ fuel
    → IsList s (t ∷ y ∷ ys)
    → Moved (y ∷ insert (expire_of s.node) t ys) s (move_back fuel t y s)
unfolding move_back
first-Moved fuel t y ys s l ((h, p, c), ((yt, dt), (dy, nd))) =
    let n1 = write y (to_prev none) s.node in
    let n2 = write t (to_next none) n1 in
    let s1 = set_next t none (set_prev y none (record s { head = some y })) in
    let c1 =
      Chain-agree n1 n2 (s.node t).next none s.tail (y ∷ ys)
        (agree_outside n1 n2 (y ∷ ys) (λ w. w ≢ t) (λ w q. write_other t w (to_next none) n1 q)
          (yt, dt))
        (Chain-behind s.node (s.node t).next (some t) none s.tail y ys dy c) in
    let (e, v, c2) = c1 in
    let ex : (w : ℕ) → expire_of n2 w ≡ expire_of s.node w = λ w.
      write-expire t (to_next none) n1 w (λ n. refl)
      ∙ write-expire y (to_prev none) s.node w (λ n. refl) in
    let (s', r, ch, pr, same, ex', hd) =
      insert_after-Inserted fuel t y (n2 y).next ys s1 l refl c2 yt dt dy nd in
    (
      s',
      then_branch {b = names s.head t} _ _ (names_it s.head t h) ∙ r,
      (
        hd,
        pr ∙ v,
        subst (λ f. Chain s'.node (s'.node y).next (some y) (insert f t ys) s'.tail) (fun_ext ex)
            ch,
      ),
      (λ w. ex' w ∙ ex w),
    )

later-Moved :
    (fuel t x y : ℕ) (xs ys : List ℕ) (s : Timers)
    → length ys ≤ fuel
    → IsList s (x ∷ xs ++ t ∷ y ∷ ys)
    → Moved (x ∷ xs ++ y ∷ insert (expire_of s.node) t ys) s (move_back fuel t y s)
unfolding move_back
later-Moved fuel t x y xs ys s l (c, nd) =
    let (a, ((yt, dt), (dy, b)), r) = NoDup-split (x ∷ xs) (t ∷ y ∷ ys) nd in
    let first = names_other s.head x t c.0 (λ q. r.0.0 (sym q)) in
    let (s1, u, ch, q) = unlink_lem s s.head x xs t y ys c nd in
    let tl : s1.tail ≡ s.tail = ap (λ w. w.tail) q in
    let (stop, g, (e, v, c1)) = Chain-split s1.node s.head none s.tail (x ∷ xs) (y ∷ ys) ch in
    let ex : (w : ℕ) → expire_of s1.node w ≡ expire_of s.node w = λ w.
      ap (λ z. expire_of z.node w) q
      ∙ write-expire y (to_prev _) (write _ (to_next (some y)) s.node) w (λ n. refl)
      ∙ write-expire _ (to_next (some y)) s.node w (λ n. refl) in
    let (s', r', ch', pr, same, ex', hd) =
      insert_after-Inserted fuel t y (s1.node y).next ys s1 l refl
        (subst (Chain s1.node (s1.node y).next (some y) ys) (sym tl) c1) yt dt dy b in
    let outside : All (λ w. (w ≢ y) × (w ≢ t) × Differ w ys) (x ∷ xs) =
      All-weaken (λ w. Differ w (t ∷ y ∷ ys)) (λ w. (w ≢ y) × (w ≢ t) × Differ w ys)
        (λ w (h, (h', hs)). ((λ o. h' (sym o)), (λ o. h (sym o)), hs)) (x ∷ xs) r in
    let g' =
      Segment-agree s1.node s'.node s.head none stop (x ∷ xs)
        (agree_outside s1.node s'.node (x ∷ xs) (λ w. (w ≢ y) × (w ≢ t) × Differ w ys) same outside)
        g in
    (
      s',
      else_branch {b = names s.head t} _ _ first
          ∙ ap (λ o. and_then o (λ w. insert_after fuel t y (w.node y).next w)) u
          ∙ r',
      Chain-join s'.node s'.head none (some y) s'.tail (x ∷ xs) (y ∷ insert (expire_of s.node) t ys)
          (subst (λ o. Segment s'.node o none (x ∷ xs) (some y)) (sym (hd ∙ ap (λ w. w.head) q))
            (subst (Segment s'.node s.head none (x ∷ xs)) e g'))
          (
            refl,
            pr ∙ v,
            subst (λ f. Chain s'.node (s'.node y).next (some y) (insert f t ys) s'.tail)
                (fun_ext ex) ch',
          ),
      (λ w. ex' w ∙ ex w),
    )

adjust-Moved :
    (fuel t : ℕ) (xs ys : List ℕ) (s : Timers)
    → length ys ≤ fuel
    → IsList s (xs ++ t ∷ ys)
    → Moved (xs ++ insert (expire_of s.node) t ys) s (adjust_timer fuel t s)
unfolding adjust_timer adjust_before
adjust-Moved fuel t xs [] s l (c, nd) =
    let (stop, g, (h, p, (e, k))) = Chain-split s.node s.head none s.tail xs (t ∷ []) c in
    (s, ap (λ o. adjust_before fuel t o s) e, c, λ w. refl)
adjust-Moved fuel t xs (y ∷ ys) s l (c, nd) =
    let f = expire_of s.node in
    let (stop, g, (h, p, (e, v, k))) = Chain-split s.node s.head none s.tail xs (t ∷ y ∷ ys) c in
    let b' = ltb (f t) (f y) in
    subst (λ o. Moved (xs ++ insert f t (y ∷ ys)) s (adjust_before fuel t o s)) (sym e)
      (if_Moved (xs ++ insert f t (y ∷ ys)) s b' (some s) (move_back fuel t y s)
        (λ b. (
          s,
          refl,
          subst (λ z. Chain s.node s.head none (xs ++ z) s.tail) (sym (then_branch {b = b'} _ _ b))
              c,
          λ w. refl,
        ))
        (λ b.
          subst (λ z. Moved (xs ++ z) s (move_back fuel t y s)) (sym (else_branch {b = b'} _ _ b))
            (back xs (c, nd))))
  where
    back :
        (zs : List ℕ)
        → IsList s (zs ++ t ∷ y ∷ ys)
        → Moved (zs ++ y ∷ insert (expire_of s.node) t ys) s (move_back fuel t y s)
    back [] h = first-Moved fuel t y ys s (omega (arith, l)) h
    back (x ∷ zs) h = later-Moved fuel t x y zs ys s (omega (arith, l)) h

-- What the move leaves is sorted, and each timer is in it once.
moved-Sorted :
    (e : ℕ → ℕ) (t : ℕ) (xs ys : List ℕ)
    → Sorted e (xs ++ ys)
    → All (λ x. e x ≤ e t) xs
    → Sorted e (xs ++ insert e t ys)
moved-Sorted e t [] ys so h = insert-Sorted e t ys so
moved-Sorted e t (x ∷ xs) ys (d, so) (h, hs) =
    let (a, b) = All-split (λ y. e x ≤ e y) xs ys d in
    (
      All-append (λ y. e x ≤ e y) xs (insert e t ys) a (insert-All e (e x) t ys h b),
      moved-Sorted e t xs ys so hs,
    )

moved-NoDup :
    (e : ℕ → ℕ) (t : ℕ) (xs ys : List ℕ) → NoDup (xs ++ t ∷ ys) → NoDup (xs ++ insert e t ys)
moved-NoDup e t [] ys (d, nd) = insert-NoDup e t ys d nd
moved-NoDup e t (x ∷ xs) ys (d, nd) =
    let (a, (tx, b)) = All-split (λ y. y ≢ x) xs (t ∷ ys) d in
    (
      All-append (λ y. y ≢ x) xs (insert e t ys) a (insert-Differ e t x ys tx b),
      moved-NoDup e t xs ys nd,
    )

-- A timer of a list whose expire was raised stands behind adjust_timer before the first of the timers
-- behind it that expires later. If the other timers are sorted and those before it expire no later, the
-- whole list is sorted again, its links lead both ways, and no NULL is followed. As many rounds as there
-- are timers behind it are enough.
pub adjust_timer_lem :
    (fuel t : ℕ) (xs ys : List ℕ) (s : Timers)
    → length ys ≤ fuel
    → IsList s (xs ++ t ∷ ys)
    → Sorted (expire_of s.node) (xs ++ ys)
    → All (λ x. expire_of s.node x ≤ expire_of s.node t) xs
    → (s' : Timers) × (adjust_timer fuel t s ≡ some s')
      × IsList s' (xs ++ insert (expire_of s.node) t ys)
      × Sorted (expire_of s'.node) (xs ++ insert (expire_of s.node) t ys)
adjust_timer_lem fuel t xs ys s l (c, nd) so h =
    let e = expire_of s.node in
    let (s', r, ch, ex) = adjust-Moved fuel t xs ys s l (c, nd) in
    (
      s',
      r,
      (ch, moved-NoDup e t xs ys nd),
      subst (λ f. Sorted f (xs ++ insert e t ys)) (sym (fun_ext ex)) (moved-Sorted e t xs ys so h),
    )
