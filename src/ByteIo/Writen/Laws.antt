-- ===== src/ByteIo/Writen/Laws.antt =====
-- What `writen` sends of a buffer.
use unix_network_programming.Base.{
  ℕ, zero, suc, ◌+◌, ◌<◌, ◌≡◌, refl, sym, ap, ◌∙◌, List, [], ◌∷◌, ◌++◌, append-nil, append_assoc,
  some, none, ◌⊎◌, inl, inr, ◌==◌, length, take, drop, arith, take-append-drop, Bool-cases, false,
  drop_all, take_all, min,
}
use unix_network_programming.ByteIo.{Acceptance, took, refused, write, eintr}
use unix_network_programming.ByteIo.Writen.{WritenResult, react, writen_loop, writen}

-- The two parts make the buffer, and -1 is returned exactly where a part is left.
abbrev pub Faithful : List ℕ → WritenResult → Type 0
Faithful buf r =
    (r.sent ++ r.unsent ≡ buf)
    × (((r.value ≡ some (length buf)) × (r.unsent ≡ []))
        ⊎ ((r.value ≡ none) × (0 < length r.unsent)))

zero-min : (n : ℕ) → min 0 n ≡ 0
zero-min n = omega arith

suc-min : (k n : ℕ) → min (suc k) (suc n) ≡ suc (min k n)
suc-min k n = omega arith

pub suc-ne-zero : (n : ℕ) → (suc n == 0) ≡ false
suc-ne-zero n = ground arith

module _ (buf : List ℕ) where
  abbrev Ends : ℕ → List ℕ → List ℕ → List Acceptance → Type 0
  Ends fuel sent unsent s =
      (r : WritenResult) × (rest : List Acceptance) × (writen_loop fuel (length buf) sent unsent s
        ≡ some (r, rest))
      × Faithful buf r

  Ends-done :
      (fuel : ℕ) (sent : List ℕ) (s : List Acceptance)
      → sent ++ [] ≡ buf
      → Ends (suc fuel) sent [] s
  unfolding writen_loop
  Ends-done fuel sent s e = (_, s, refl, (e, inl (refl, refl)))

  split-again :
      (sent unsent : List ℕ) (k : ℕ)
      → sent ++ unsent ≡ buf
      → (sent ++ take k unsent) ++ drop k unsent ≡ buf
  split-again sent unsent k e =
      append_assoc sent (take k unsent) (drop k unsent)
      ∙ ap (λ t. sent ++ t) (take-append-drop k unsent)
      ∙ e

  -- Each round keeps the parts together; two more rounds than answers are enough.
  writen_loop-Faithful :
      (fuel : ℕ) (sent unsent : List ℕ) (s : List Acceptance)
      → length s + 1 < fuel
      → sent ++ unsent ≡ buf
      → Ends fuel sent unsent s
  unfolding writen_loop react write
  writen_loop-Faithful zero sent unsent s h e = absurd (omega arith)
  writen_loop-Faithful (suc fuel) sent [] s h e = Ends-done fuel sent s e
  writen_loop-Faithful (suc zero) sent (b ∷ bs) [] h e = absurd (omega arith)
  writen_loop-Faithful (suc (suc fuel)) sent (b ∷ bs) [] h e = rw (suc-ne-zero (length bs)) (
      rw (drop_all (length bs) bs (omega arith)) (
        Ends-done fuel _ [] (
          append-nil _
          ∙ ap (λ t. sent ++ t) (take_all (suc (length bs)) (b ∷ bs) (omega arith))
          ∙ e)))
  writen_loop-Faithful (suc fuel) sent (b ∷ bs) (refused x ∷ s) h e =
      elim (Bool-cases (x == eintr)) [
        | inl again ↦
            rw (suc-ne-zero (length bs), again)
              (writen_loop-Faithful fuel sent (b ∷ bs) s (omega arith) e)
        | inr other ↦ rw (suc-ne-zero (length bs), other) (_, s, refl, (e, inr (refl, omega arith)))
      ]
  writen_loop-Faithful (suc fuel) sent (b ∷ bs) (took zero ∷ s) h e =
      rw (suc-ne-zero (length bs), zero-min) (_, s, refl, (e, inr (refl, omega arith)))
  writen_loop-Faithful (suc fuel) sent (b ∷ bs) (took (suc k) ∷ s) h e =
      rw (suc-ne-zero (length bs), suc-min)
        (writen_loop-Faithful fuel _ _ s (omega arith)
          (split-again sent (b ∷ bs) (suc (min k (length bs))) e))

-- For every sequence of answers `writen` ends; it returns the length of the buffer with all of it
-- written, or -1 with some of it unwritten.
pub writen-Faithful :
    (buf : List ℕ) (s : List Acceptance)
    → (r : WritenResult) × (rest : List Acceptance) × (writen buf s ≡ some (r, rest))
      × Faithful buf r
unfolding writen
writen-Faithful buf s = writen_loop-Faithful buf (length s + 2) [] buf s (omega arith) refl

-- Every call is accepted in part or interrupted.
abbrev pub Willing : List Acceptance → Type 0
Willing [] = Unit
Willing (took k ∷ s) = (0 < k) × Willing s
Willing (refused e ∷ s) = (e ≡ eintr) × Willing s

writen_loop-Willing :
    (fuel n : ℕ) (sent unsent : List ℕ) (s : List Acceptance)
    → Willing s
    → (r : WritenResult) (rest : List Acceptance)
    → writen_loop fuel n sent unsent s ≡ some (r, rest)
    → r.value ≡ some n
unfolding writen_loop react write
writen_loop-Willing zero n sent unsent s w r rest h = cc
writen_loop-Willing (suc fuel) n sent [] s w r rest h = ground arith
writen_loop-Willing (suc fuel) n sent (b ∷ bs) [] w r rest h = ground (
  arith,
  writen_loop-Willing fuel n (sent ++ b ∷ take (length bs) bs) (drop (length bs) bs) [] tt r rest,
)
writen_loop-Willing (suc fuel) n sent (b ∷ bs) (refused x ∷ s) w r rest h =
    ground (arith, writen_loop-Willing fuel n sent (b ∷ bs) s w.1 r rest)
writen_loop-Willing (suc fuel) n sent (b ∷ bs) (took zero ∷ s) w r rest h = absurd (omega arith)
writen_loop-Willing (suc fuel) n sent (b ∷ bs) (took (suc k) ∷ s) w r rest h =
    writen_loop-Willing fuel n _ _ s w.1 r rest (rw (suc-ne-zero (length bs), suc-min) at h)

-- Where no call fails but by an interruption, all is written, in order.
pub writen_complete :
    (buf : List ℕ) (s : List Acceptance)
    → Willing s
    → (r : WritenResult) × (rest : List Acceptance) × (writen buf s ≡ some (r, rest))
      × (r.value ≡ some (length buf))
      × (r.sent ≡ buf)
writen_complete buf s w =
    let (r, rest, runs, faithful) = writen-Faithful buf s in
    let whole : r.value ≡ some (length buf) =
      unfold writen in writen_loop-Willing (length s + 2) (length buf) [] buf s w r rest runs in
    (
      r,
      rest,
      runs,
      whole,
      elim faithful.1 [
        | inl (a, none_left) ↦
            sym (append-nil r.sent) ∙ ap (λ t. r.sent ++ t) (sym none_left) ∙ faithful.0
        | inr (a, b) ↦ cc
      ],
    )
