-- ===== src/Decimal.antt =====
-- The conversion %d of a number that is not negative, and the number that a text of digits denotes.
use unix_network_programming.Base.{
  ℕ, zero, suc, ◌+◌, ◌-◌, ◌*◌, ◌/◌, ◌%◌, ◌<◌, ◌≤◌, ◌≡◌, refl, ap, ◌∙◌, List, [], ◌∷◌, ◌++◌, ltb,
  if◌then◌else◌, length, length-append, arith, Bool-cases, inl, inr, All, All-append, ltb→lt,
  ltb→ge,
}

-- The digits, with as many rounds as an int has digits.
abbrev pub digits : ℕ → ℕ → List ℕ
digits zero n = []
digits (suc rounds) n =
    let front = digits rounds (n / 10) in
    if ltb n 10 then (b'0' + n) ∷ [] else front ++ (b'0' + n % 10) ∷ []

unfoldable pub decimal : ℕ → List ℕ
decimal n = digits 10 n

-- The number, with `acc` in front.
abbrev pub value : ℕ → List ℕ → ℕ
value acc [] = acc
value acc (c ∷ cs) = value (acc * 10 + (c - b'0')) cs

value-append : (acc : ℕ) (xs ys : List ℕ) → value acc (xs ++ ys) ≡ value (value acc xs) ys
value-append acc [] ys = refl
value-append acc (x ∷ xs) ys = value-append (acc * 10 + (x - b'0')) xs ys

last_digit : (n : ℕ) → n / 10 * 10 + (b'0' + n % 10 - b'0') ≡ n
last_digit n = omega arith

-- 10 to the number of rounds.
abbrev pub limit : ℕ → ℕ
limit zero = 1
limit (suc rounds) = limit rounds * 10

value-digits : (rounds n : ℕ) → n < limit rounds → value 0 (digits rounds n) ≡ n
value-digits zero n h = omega arith
value-digits (suc rounds) n h = elim (Bool-cases (ltb n 10)) [
  | inl e ↦ rw e (omega arith)
  | inr e ↦ rw e (
      value-append 0 (digits rounds (n / 10)) ((b'0' + n % 10) ∷ [])
      ∙ ap (λ m. m * 10 + (b'0' + n % 10 - b'0')) (value-digits rounds (n / 10) (omega arith))
      ∙ last_digit n)
]

length-digits :
    (rounds places n : ℕ) → n < limit (suc places) → length (digits rounds n) ≤ suc places
length-digits zero places n h = omega arith
length-digits (suc rounds) zero n h = elim (Bool-cases (ltb n 10)) [
  | inl e ↦ rw e (omega arith)
  | inr e ↦ omega (arith, ltb→ge n 10 e)
]
length-digits (suc rounds) (suc places) n h = elim (Bool-cases (ltb n 10)) [
  | inl e ↦ rw e (omega arith)
  | inr e ↦
      rw (e, length-append (digits rounds (n / 10)) ((b'0' + n % 10) ∷ []))
        (omega (arith, length-digits rounds places (n / 10) (omega arith)))
]

abbrev pub IsDigit : ℕ → Type 0
IsDigit c = (b'0' ≤ c) × (c ≤ b'9')

digits-IsDigit : (rounds n : ℕ) → All IsDigit (digits rounds n)
digits-IsDigit zero n = tt
digits-IsDigit (suc rounds) n = elim (Bool-cases (ltb n 10)) [
  | inl e ↦ rw e ((omega arith, omega (arith, ltb→lt n 10 e)), tt)
  | inr e ↦ rw e (
      All-append IsDigit (digits rounds (n / 10)) ((b'0' + n % 10) ∷ [])
        (digits-IsDigit rounds (n / 10)) ((omega arith, omega arith), tt))
]

-- The text of a number denotes it.
pub value-decimal : (n : ℕ) → n < limit 10 → value 0 (decimal n) ≡ n
unfolding decimal
value-decimal n h = value-digits 10 n h

length-digits_rounds : (rounds n : ℕ) → length (digits rounds n) ≤ rounds
length-digits_rounds zero n = omega arith
length-digits_rounds (suc rounds) n = elim (Bool-cases (ltb n 10)) [
  | inl b ↦ rw b (omega arith)
  | inr b ↦ rw b (
      omega (
        arith,
        length-append (digits rounds (n / 10)) ((b'0' + n % 10) ∷ []),
        length-digits_rounds rounds (n / 10),
      ))
]

-- No number is printed with more than ten digits.
pub length-decimal_rounds : (n : ℕ) → length (decimal n) ≤ 10
unfolding decimal
length-decimal_rounds n = length-digits_rounds 10 n

-- A 16-bit number has at most five digits.
pub length-decimal : (n : ℕ) → n < 65536 → length (decimal n) ≤ 5
unfolding decimal
length-decimal n h = length-digits 10 4 n (omega arith)

pub decimal-IsDigit : (n : ℕ) → All IsDigit (decimal n)
unfolding decimal
decimal-IsDigit n = digits-IsDigit 10 n
