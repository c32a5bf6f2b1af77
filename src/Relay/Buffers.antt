-- ===== src/Relay/Buffers.antt =====
-- The buffers of unpv1e3/nonblock/strclinonb.c.
use unix_network_programming.Base.{
  ℕ, zero, suc, ◌+◌, ◌≤◌, ◌<◌, ◌≡◌, ◌⊎◌, inl, inr, refl, List, [], ◌∷◌, ◌++◌, true, false, take,
  drop, length, length-append, length-drop, arith, Bool-cases,
}
use unix_network_programming.Relay.{maxline, Buffer, room, is_empty, fill, empty_by}

-- The bytes end inside the buffer, and where there are none, it begins at its first byte.
abbrev pub Fits : Buffer → Type 0
Fits b = (b.start + length b.held ≤ maxline) × ((b.start ≡ 0) ⊎ (is_empty b.held ≡ false))

pub is_empty_iff : (bs : List ℕ) → is_empty bs ≡ true → bs ≡ []
is_empty_iff [] h = refl
is_empty_iff (b ∷ bs) h = ground arith

pub append-nonempty : (bs cs : List ℕ) → is_empty cs ≡ false → is_empty (bs ++ cs) ≡ false
append-nonempty [] cs h = h
append-nonempty (b ∷ bs) cs h = refl

pub take-nonempty : (k : ℕ) (b : ℕ) (bs : List ℕ) → 0 < k → is_empty (take k (b ∷ bs)) ≡ false
take-nonempty zero b bs h = ground arith
take-nonempty (suc k) b bs h = refl

drop_short : (k : ℕ) (bs : List ℕ) → is_empty (drop k bs) ≡ false → k < length bs
drop_short zero (b ∷ bs) h = omega arith
drop_short (suc k) (b ∷ bs) h = omega (arith, drop_short k bs h)
drop_short zero [] h = ground arith
drop_short (suc k) [] h = ground arith

pub fill-Fits :
    (b : Buffer) (bs : List ℕ)
    → is_empty bs ≡ false
    → length bs ≤ room b
    → Fits b
    → Fits (fill bs b)
fill-Fits b bs n l (h, _) =
    (rw (length-append b.held bs) (omega arith), inr (append-nonempty b.held bs n))

pub empty_by-Fits : (k : ℕ) (b : Buffer) → Fits b → Fits (empty_by k b)
empty_by-Fits k b (h, _) = elim (Bool-cases (is_empty (drop k b.held))) [
  | inl e ↦ rw e (omega arith, inl refl)
  | inr e ↦ rw e (omega (arith, length-drop k b.held, drop_short k b.held e), inr e)
]

pub empty_by-held : (k : ℕ) (b : Buffer) → (empty_by k b).held ≡ drop k b.held
empty_by-held k b = elim (Bool-cases (is_empty (drop k b.held))) [
  | inl e ↦ rw (e, is_empty_iff (drop k b.held) e) refl
  | inr e ↦ rw e refl
]
