-- ===== src/Base/Counts.antt =====
-- Sums of a weight over a list, and what an update of one element does to them.
use Prim.Native.Nat.{ℕ, zero, suc, ◌+◌, ◌*◌, ◌≤◌}
use mathlib.Core.Path.{◌≡◌, refl, ap, subst}
use mathlib.Core.Bool.{Bool, true, false}
use mathlib.Core.List.{List, [], ◌∷◌}
use mathlib.Core.Option.{Option, none, some, none-ne-some, some-injective}
use native.Mathlib.Omega.{arith}
use unix_network_programming.Base.Lists.{get_elem?, set, All, replicate}

module _ {ℓ} {A : Type ℓ} (w : A → ℕ) where
  unfoldable pub total : List A → ℕ
  total [] = 0
  total (x ∷ xs) = w x + total xs

  pub total-set :
      (xs : List A) (i : ℕ) (x y : A)
      → get_elem? xs i ≡ some x
      → total (set xs i y) + w x ≡ total xs + w y
  unfolding total
  total-set [] i x y g = absurd (none-ne-some x g)
  total-set (z ∷ xs) zero x y g = let e = ap w (some-injective z x g) in omega (arith, e)
  total-set (z ∷ xs) (suc i) x y g = omega (arith, total-set xs i x y g)

  pub total-member : (xs : List A) (i : ℕ) (x : A) → get_elem? xs i ≡ some x → w x ≤ total xs
  unfolding total
  total-member [] i x g = absurd (none-ne-some x g)
  total-member (z ∷ xs) zero x g = let e = ap w (some-injective z x g) in omega (arith, e)
  total-member (z ∷ xs) (suc i) x g = omega (arith, total-member xs i x g)

  pub total-replicate : (n : ℕ) (x : A) (k : ℕ) → w x ≡ k → total (replicate n x) ≡ n * k
  unfolding total
  total-replicate zero x k e = omega arith
  total-replicate (suc n) x k e = grind (arith, total-replicate n x k e)

module _ {ℓ} {A : Type ℓ} where
  -- What holds of the element at a place; of none where there is no such place.
  abbrev pub holds_at : (A → Bool) → Option A → Bool
  holds_at p none = false
  holds_at p (some x) = p x

  pub holds_at-set :
      (p : A → Bool) (xs : List A) (i j : ℕ) (x y : A)
      → get_elem? xs j ≡ some x
      → (p x ≡ true → p y ≡ true)
      → holds_at p (get_elem? xs i) ≡ true
      → holds_at p (get_elem? (set xs j y) i) ≡ true
  holds_at-set p [] i j x y g h k = k
  holds_at-set p (z ∷ xs) zero zero x y g h k = h (subst (λ o. holds_at p o ≡ true) g k)
  holds_at-set p (z ∷ xs) zero (suc j) x y g h k = k
  holds_at-set p (z ∷ xs) (suc i) zero x y g h k = k
  holds_at-set p (z ∷ xs) (suc i) (suc j) x y g h k = holds_at-set p xs i j x y g h k

  pub holds_at_elim :
      (p : A → Bool) (o : Option A) → holds_at p o ≡ true → (x : A) × (o ≡ some x) × (p x ≡ true)
  holds_at_elim p none h = ground arith
  holds_at_elim p (some x) h = (x, refl, h)

module _ {ℓ κ} {A : Type ℓ} (P : A → Type κ) where
  pub All-set : (xs : List A) (i : ℕ) (y : A) → All P xs → P y → All P (set xs i y)
  All-set [] i y h k = h
  All-set (x ∷ xs) zero y (h, hs) k = (k, hs)
  All-set (x ∷ xs) (suc i) y (h, hs) k = (h, All-set xs i y hs k)

  abbrev pub At : Option A → Type κ
  At none = Unit
  At (some x) = P x

  pub All-get_elem? : (xs : List A) (i : ℕ) → All P xs → At (get_elem? xs i)
  All-get_elem? [] i h = tt
  All-get_elem? (x ∷ xs) zero (h, hs) = h
  All-get_elem? (x ∷ xs) (suc i) (h, hs) = All-get_elem? xs i hs

  pub All-replicate : (n : ℕ) (x : A) → P x → All P (replicate n x)
  All-replicate zero x h = tt
  All-replicate (suc n) x h = (h, All-replicate n x h)
