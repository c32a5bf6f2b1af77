-- ===== src/Sigio/Ring.antt =====
-- The part of the array of unpv1e3/sigio/dgecho01.c that is in use.
use unix_network_programming.Base.{
  ℕ, zero, suc, ◌+◌, ◌-◌, ◌≤◌, ◌<◌, ◌≡◌, refl, ap, ap₂, sym, ◌∙◌, List, [], ◌∷◌, ◌++◌, Bool, ◌==◌,
  leb, if◌then◌else◌, arith,
}
use unix_network_programming.Sigio.{qsize, update, next}

module _ {ℓ} {A : Type ℓ} where
  -- `n` elements from the index `i` on.
  abbrev pub ring : (ℕ → A) → ℕ → ℕ → List A
  ring f i zero = []
  ring f i (suc n) = f i ∷ ring f (next i) n

-- The index `m` places behind `i`.
abbrev pub behind : ℕ → ℕ → ℕ
behind i m = if leb qsize (i + m) then i + m - qsize else i + m

pub next_bound : (i : ℕ) → i < qsize → next i < qsize
next_bound i h = ground arith

pub behind_zero : (i : ℕ) → i < qsize → behind i 0 ≡ i
behind_zero i h = ground arith

pub behind-suc : (i m : ℕ) → i < qsize → m < qsize → behind (next i) m ≡ behind i (suc m)
behind-suc i m h k = ground arith

pub next-behind : (i m : ℕ) → i < qsize → m < qsize → next (behind i m) ≡ behind i (suc m)
next-behind i m h k = ground arith

pub behind_other : (i m : ℕ) → i < qsize → suc m < qsize → (i == behind i (suc m)) ≡ Bool.false
behind_other i m h k = ground arith

module _ {ℓ} {A : Type ℓ} where
  -- An assignment behind the part in use leaves it as it is.
  pub ring-update :
      (f : ℕ → A) (d : A) (i n m : ℕ)
      → i < qsize
      → n ≤ m
      → m < qsize
      → ring (update f (behind i m) d) i n ≡ ring f i n
  ring-update f d i zero m h l k = refl
  ring-update f d i (suc n) zero h l k = elim l [ ]
  ring-update f d i (suc n) (suc m) h l k =
      ap₂ (λ x xs. x ∷ xs) (rw (behind_other i m h k) refl)
        (ap (λ p. ring (update f p d) (next i) n) (sym (behind-suc i m h (omega arith)))
          ∙ ring-update f d (next i) n m (next_bound i h) (omega arith) (omega arith))

  -- One more element.
  pub ring_snoc :
      (f : ℕ → A) (i n : ℕ)
      → i < qsize
      → n < qsize
      → ring f i (suc n) ≡ ring f i n ++ f (behind i n) ∷ []
  ring_snoc f i zero h k = rw (behind_zero i h) refl
  ring_snoc f i (suc n) h k =
      ap (λ xs. f i ∷ xs)
        (ring_snoc f (next i) n (next_bound i h) (omega arith)
          ∙ (rw (behind-suc i n h (omega arith)) refl))
