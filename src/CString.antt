-- ===== src/CString.antt =====
-- The C library's character tests and strings, as far as the program uses them: a buffer is the list
-- of its bytes, and the string in it ends before the first null.
use unix_network_programming.Base.{
  ℕ, ◌+◌, ◌≡◌, refl, Bool, true, false, ◌&&◌, ◌||◌, List, [], ◌∷◌, map, ◌==◌, leb, if◌then◌else◌,
  All, ◌≢◌, arith,
}

-- isspace in the C locale: blank, tab, newline, vertical tab, form feed, carriage return.
abbrev pub is_space : ℕ → Bool
is_space c = c == 32 || (leb 9 c && leb c 13)

abbrev pub to_lower : ℕ → ℕ
to_lower c = if leb b'A' c && leb c b'Z' then c + 32 else c

-- The string that a buffer holds.
abbrev pub c_string : List ℕ → List ℕ
c_string [] = []
c_string (b ∷ bs) = let rest = c_string bs in if b == 0 then [] else b ∷ rest

abbrev pub same_bytes : List ℕ → List ℕ → Bool
same_bytes [] [] = true
same_bytes [] (b ∷ bs) = false
same_bytes (a ∷ xs) [] = false
same_bytes (a ∷ xs) (b ∷ bs) = (a == b) && same_bytes xs bs

-- strcasecmp(a, b) == 0
abbrev pub same_text : List ℕ → List ℕ → Bool
same_text a b = same_bytes (map to_lower a) (map to_lower b)

-- A text without a null is its own C string.
pub c_string_self : (bs : List ℕ) → All (λ b. b ≢ 0) bs → c_string bs ≡ bs
c_string_self [] h = refl
c_string_self (b ∷ bs) h = ground (arith, c_string_self bs h.1)
