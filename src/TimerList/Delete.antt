-- ===== src/TimerList/Delete.antt =====
-- `del_timer` of lst_timer.h takes the timer out of the list.
use unix_network_programming.Base.{
  ℕ, ◌≡◌, ◌≢◌, refl, sym, ap, ap₂, subst, ◌∙◌, List, [], ◌∷◌, ◌++◌, Bool, true, false, Option, none,
  some, ◌&&◌, then_branch, else_branch, All, arith,
}
use unix_network_programming.TimerList.{
  Node, Timers, write, set_next, set_prev, names, with_next, with_prev, and_then, delete,
  delete_some, unlink, del_timer,
}
use unix_network_programming.TimerList.Chains.{
  write_other, Last, Chain, Differ, NoDup, Chain-agree, agree_outside,
}
use unix_network_programming.TimerList.Links.{to_next, to_prev}
use unix_network_programming.TimerList.Insert.{IsList}
use unix_network_programming.TimerList.Segments.{
  last_from, last_from_lem, last_from-All, Chain-split, Chain-join, Segment-agree, Segment-redirect,
  Chain-behind, All-weaken, Disjoint, NoDup-split, NoDup-join,
}

pub names_it : (o : Option ℕ) (a : ℕ) → o ≡ some a → names o a ≡ true
names_it o a h = ap (λ v. names v a) h ∙ (ground arith)

pub names_other : (o : Option ℕ) (x a : ℕ) → o ≡ some x → x ≢ a → names o a ≡ false
names_other o x a h d = ap (λ v. names v a) h ∙ (ground arith)

-- The tail is the last timer of the list.
tail_lem :
    (node : ℕ → Node) (start prev tail : Option ℕ) (x : ℕ) (xs : List ℕ)
    → Chain node start prev (x ∷ xs) tail
    → tail ≡ some (last_from x xs)
tail_lem node start prev tail x [] (s, p, (e, l)) = l
tail_lem node start prev tail x (y ∷ ys) (s, p, c) =
    tail_lem node (node x).next (some x) tail y ys c

-- A list whose middle timer is unlinked.
pub unlink_lem :
    (s : Timers) (start : Option ℕ) (x : ℕ) (xs : List ℕ) (t y : ℕ) (ys : List ℕ)
    → Chain s.node start none (x ∷ xs ++ t ∷ y ∷ ys) s.tail
    → NoDup (x ∷ xs ++ t ∷ y ∷ ys)
    → (s' : Timers) × (unlink t s ≡ some s')
      × Chain s'.node start none (x ∷ xs ++ y ∷ ys) s.tail
      × (s' ≡ set_prev y (some (last_from x xs)) (set_next (last_from x xs) (some y) s))
unlink_lem s start x xs t y ys c nd =
    let p = last_from x xs in
    let (a, (dt, (dy, b)), r) = NoDup-split (x ∷ xs) (t ∷ y ∷ ys) nd in
    let (stop, g, (e, v, (e', v', c'))) =
      Chain-split s.node start none s.tail (x ∷ xs) (t ∷ y ∷ ys) c in
    let (tp, (yp, dp)) = last_from-All (λ w. Differ w (t ∷ y ∷ ys)) x xs r in
    let n1 = write p (to_next (some y)) s.node in
    let n2 = write y (to_prev (some p)) n1 in
    let s' = set_prev y (some p) (set_next p (some y) s) in
    let at_t : n1 t ≡ s.node t = write_other p t (to_next (some y)) s.node tp in
    let back : (s.node t).prev ≡ some p = v ∙ last_from_lem x xs in
    let g1 = Segment-redirect s.node start none stop (some y) x xs a g in
    let c1 =
      Chain-agree s.node n1 (s.node t).next (some t) s.tail (y ∷ ys)
        (agree_outside s.node n1 (y ∷ ys) (λ w. w ≢ p)
          (λ w h. write_other p w (to_next (some y)) s.node h) (yp, dp))
        (e', v', c') in
    let c2 = Chain-behind n1 (s.node t).next (some t) (some p) s.tail y ys dy c1 in
    let outside : All (λ w. w ≢ y) (x ∷ xs) =
      All-weaken (λ w. Differ w (t ∷ y ∷ ys)) (λ w. w ≢ y) (λ w (h, (h', hs)) q. h' (sym q))
        (x ∷ xs) r in
    let g2 =
      Segment-agree n1 n2 start none (some y) (x ∷ xs)
        (agree_outside n1 n2 (x ∷ xs) (λ w. w ≢ y) (λ w h. write_other y w (to_prev (some p)) n1 h)
          outside)
        g1 in
    (
      s',
      ap₂ (λ m n. and_then (with_next m n s) (λ u. with_prev (u.node t).next (u.node t).prev u))
            back e'
          ∙ ap₂ (λ m n. with_prev m n (set_next p (some y) s)) (ap (λ n. n.next) at_t ∙ e')
              (ap (λ n. n.prev) at_t ∙ back),
      Chain-join n2 start none (some y) s.tail (x ∷ xs) (y ∷ ys) g2 (
          subst (λ o. Chain n2 (some y) o (y ∷ ys) s.tail) (sym (last_from_lem x xs))
            (subst (λ o. Chain n2 o (some p) (y ∷ ys) s.tail) e' c2)),
      refl,
    )

-- The list without the timer, which is deleted.
abbrev pub Removed : ℕ → List ℕ → Timers → Option Timers → Type 0
Removed t xs s r = (s' : Timers) × (r ≡ some s') × IsList s' xs × (s'.deleted ≡ s.deleted ++ t ∷ [])

-- The last timer of a list is another one.
tail_other :
    (s : Timers) (start prev : Option ℕ) (t y : ℕ) (ys : List ℕ)
    → Chain s.node start prev (y ∷ ys) s.tail
    → Differ t (y ∷ ys)
    → names s.tail t ≡ false
tail_other s start prev t y ys c d =
    names_other s.tail (last_from y ys) t (tail_lem s.node start prev s.tail y ys c)
      (last_from-All (λ w. w ≢ t) y ys d)

both_names : (a b : Bool) → b ≡ false → (a && b) ≡ false
both_names true b h = h
both_names false b h = refl

-- Each of the four cases of del_timer.
only-Removed : (t : ℕ) (s : Timers) → IsList s (t ∷ []) → Removed t [] s (del_timer t s)
unfolding del_timer
only-Removed t s ((h, p, (n, l)), nd) = (
  record (delete t s) { head = none; tail = none },
  then_branch {b = names s.head t && names s.tail t} _ _
      (ap₂ (λ a b. a && b) (names_it s.head t h) (names_it s.tail t l)),
  ((refl, tt), tt),
  refl,
)

first-Removed :
    (t y : ℕ) (ys : List ℕ) (s : Timers)
    → IsList s (t ∷ y ∷ ys)
    → Removed t (y ∷ ys) s (del_timer t s)
unfolding del_timer
first-Removed t y ys s ((h, p, c), (dt, (dy, nd))) =
    let (e, v, c') = c in
    let last = tail_other s (s.node t).next (some t) t y ys c dt in
    let s' : Timers = delete t (set_prev y none (record s { head = some y })) in
    (
      s',
      else_branch {b = names s.head t && names s.tail t} _ _ (both_names (names s.head t) _ last)
          ∙ then_branch {b = names s.head t} _ _ (names_it s.head t h)
          ∙ ap (λ o. delete_some t (with_prev o none (record s { head = o }))) e,
      (
        subst (λ o. Chain s'.node o none (y ∷ ys) s.tail) e
            (Chain-behind s.node (s.node t).next (some t) none s.tail y ys dy c),
        (dy, nd),
      ),
      refl,
    )

last-Removed :
    (t x : ℕ) (xs : List ℕ) (s : Timers)
    → IsList s (x ∷ xs ++ t ∷ [])
    → Removed t (x ∷ xs ++ []) s (del_timer t s)
unfolding del_timer
last-Removed t x xs s (c, nd) =
    let p = last_from x xs in
    let (a, b, (xt, r)) = NoDup-split (x ∷ xs) (t ∷ []) nd in
    let (stop, g, (e, v, (n, l))) = Chain-split s.node s.head none s.tail (x ∷ xs) (t ∷ []) c in
    let back : (s.node t).prev ≡ some p = v ∙ last_from_lem x xs in
    let first = names_other s.head x t c.0 (λ q. xt.0 (sym q)) in
    let s' : Timers = delete t (set_next p none (record s { tail = some p })) in
    let g' = Segment-redirect s.node s.head none stop none x xs a g in
    (
      s',
      else_branch {b = names s.head t && names s.tail t} _ _ (ap (λ a. a && names s.tail t) first)
          ∙ else_branch {b = names s.head t} _ _ first
          ∙ then_branch {b = names s.tail t} _ _ (names_it s.tail t l)
          ∙ ap (λ o. delete_some t (with_next o none (record s { tail = o }))) back,
      (
        Chain-join s'.node s.head none none (some p) (x ∷ xs) [] g'
            (refl, subst (λ o. Last o (some p)) (sym (last_from_lem x xs)) refl),
        NoDup-join (x ∷ xs) [] a tt (Disjoint-nil (x ∷ xs)),
      ),
      refl,
    )
  where
    Disjoint-nil : (ys : List ℕ) → Disjoint ys []
    Disjoint-nil [] = tt
    Disjoint-nil (y ∷ ys) = (tt, Disjoint-nil ys)

middle-Removed :
    (t x y : ℕ) (xs ys : List ℕ) (s : Timers)
    → IsList s (x ∷ xs ++ t ∷ y ∷ ys)
    → Removed t (x ∷ xs ++ y ∷ ys) s (del_timer t s)
unfolding del_timer
middle-Removed t x y xs ys s (c, nd) =
    let (a, (dt, b), r) = NoDup-split (x ∷ xs) (t ∷ y ∷ ys) nd in
    let (stop, g, (e, v, c')) = Chain-split s.node s.head none s.tail (x ∷ xs) (t ∷ y ∷ ys) c in
    let first = names_other s.head x t c.0 (λ q. r.0.0 (sym q)) in
    let last = tail_other s (s.node t).next (some t) t y ys c' dt in
    let (s', u, ch, q) = unlink_lem s s.head x xs t y ys c nd in
    (
      delete t s',
      else_branch {b = names s.head t && names s.tail t} _ _ (ap (λ a. a && names s.tail t) first)
          ∙ else_branch {b = names s.head t} _ _ first
          ∙ else_branch {b = names s.tail t} _ _ last
          ∙ ap (delete_some t) u,
      (
        subst (λ w. Chain s'.node w.head none (x ∷ xs ++ y ∷ ys) w.tail) (sym q)
            (subst (λ w. Chain s'.node s.head none (x ∷ xs ++ y ∷ ys) s.tail) q ch),
        NoDup-join (x ∷ xs) (y ∷ ys) a b (
            All-weaken (λ w. Differ w (t ∷ y ∷ ys)) (λ w. Differ w (y ∷ ys)) (λ w (h, hs). hs)
              (x ∷ xs) r),
      ),
      ap (λ w. w.deleted ++ t ∷ []) q,
    )

-- del_timer takes a timer of the list out of it and deletes it, at either end, between others or alone:
-- the links of the others lead both ways again, in the same order, and no NULL is followed.
pub del_timer_lem :
    (t : ℕ) (xs ys : List ℕ) (s : Timers)
    → IsList s (xs ++ t ∷ ys)
    → Removed t (xs ++ ys) s (del_timer t s)
del_timer_lem t [] [] s h = only-Removed t s h
del_timer_lem t [] (y ∷ ys) s h = first-Removed t y ys s h
del_timer_lem t (x ∷ xs) [] s h = last-Removed t x xs s h
del_timer_lem t (x ∷ xs) (y ∷ ys) s h = middle-Removed t x y xs ys s h
