-- ===== src/Gai/Outcome.antt =====
-- What holds of the value that a call of the library returns.
use unix_network_programming.Base.{ℕ, ◌≡◌, ◌⊎◌, Bool, true, false, if◌then◌else◌}
use unix_network_programming.Gai.{
  af_unspec, AddrInfo, World, Run, done, error, quits, Call, and_then,
}

-- What a result satisfies where there is one.
abbrev pub Ensures {ℓ} : {A : Type ℓ} → (A → Type 0) → Run A → Type 0
Ensures P (done a w) = P a
Ensures P (error e w) = Unit
Ensures P quits = Unit

abbrev pub Anything {ℓ} : {A : Type ℓ} → A → Type 0
Anything a = Unit

pub and_then-Ensures {ℓ κ} :
    {A : Type ℓ} {B : Type κ} (P : A → Type 0) (Q : B → Type 0) (r : Run A) (f : A → Call B)
    → Ensures P r
    → ((a : A) (w : World) → P a → Ensures Q (f a w))
    → Ensures Q (and_then r f)
and_then-Ensures P Q (done a w) f h k = k a w h
and_then-Ensures P Q (error e w) f h k = tt
and_then-Ensures P Q quits f h k = tt

pub Ensures-any {ℓ} : {A : Type ℓ} (r : Run A) → Ensures Anything r
Ensures-any (done a w) = tt
Ensures-any (error e w) = tt
Ensures-any quits = tt

pub if_Ensures {ℓ} :
    {A : Type ℓ} (P : A → Type 0) (b : Bool) (x y : Call A) (w : World)
    → Ensures P (x w)
    → Ensures P (y w)
    → Ensures P ((if b then x else y) w)
if_Ensures P true x y w h k = h
if_Ensures P false x y w h k = k

-- A structure is of the family that the caller asked for.
abbrev pub OfFamily : ℕ → AddrInfo → Type 0
OfFamily family ai = (family ≡ af_unspec) ⊎ (ai.family ≡ family)
