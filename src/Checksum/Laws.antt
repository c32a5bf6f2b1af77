-- ===== src/Checksum/Laws.antt =====
-- A packet with its checksum in it has the checksum 0.
use unix_network_programming.Base.{
  ℕ, ◌+◌, ◌-◌, ◌*◌, ◌/◌, ◌%◌, ◌^◌, ◌≤◌, ◌<◌, ◌≡◌, ap, ◌∙◌, List, [], ◌∷◌, length, All, arith,
}
use unix_network_programming.Checksum.{word, sum_from, fold, fold_again, complement, in_cksum}

-- The sum without wrap-around.
abbrev pub total_of : List ℕ → ℕ
total_of [] = 0
total_of (low ∷ []) = low
total_of (low ∷ high ∷ bytes) = word low high + total_of bytes

abbrev pub IsByte : ℕ → Type 0
IsByte b = b < 256

total_bound : (bs : List ℕ) → All IsByte bs → total_of bs ≤ 65535 * length bs
total_bound [] h = omega arith
total_bound (low ∷ []) (l, h) = omega arith
total_bound (low ∷ high ∷ bs) (l, (h, hs)) = omega (arith, total_bound bs hs)

sum_from-total_of :
    (sum : ℕ) (bs : List ℕ) → sum + total_of bs < 2 ^ 32 → sum_from sum bs ≡ sum + total_of bs
unfolding sum_from
sum_from-total_of sum [] h = omega arith
sum_from-total_of sum (low ∷ []) h = omega arith
sum_from-total_of sum (low ∷ high ∷ bs) h =
    let e : (sum + word low high) % 2 ^ 32 ≡ sum + word low high = omega arith in
    ap (λ s. sum_from s bs) e
    ∙ sum_from-total_of (sum + word low high) bs (omega arith)
    ∙ omega arith

verifies :
    (t : ℕ)
    → t < 2 ^ 32 - 65536
    → (let c = complement (fold_again (fold t)) in complement (fold_again (fold (t + c))) ≡ 0)
verifies t h = omega arith

-- Words in front of the bytes, as they are stored.
abbrev pub stored : List (ℕ × ℕ) → List ℕ → List ℕ
stored [] bytes = bytes
stored ((low, high) ∷ words) bytes = low ∷ high ∷ stored words bytes

abbrev pub words_total : List (ℕ × ℕ) → ℕ
words_total [] = 0
words_total ((low, high) ∷ words) = word low high + words_total words

total_of-stored :
    (words : List (ℕ × ℕ)) (bytes : List ℕ)
    → total_of (stored words bytes) ≡ words_total words + total_of bytes
total_of-stored [] bytes = omega arith
total_of-stored ((low, high) ∷ words) bytes = omega (arith, total_of-stored words bytes)

length-stored :
    (words : List (ℕ × ℕ)) (xs ys : List ℕ)
    → length xs ≡ length ys
    → length (stored words xs) ≡ length (stored words ys)
length-stored [] xs ys h = h
length-stored ((low, high) ∷ words) xs ys h = omega (arith, length-stored words xs ys h)

in_cksum_total :
    (bs : List ℕ)
    → total_of bs < 2 ^ 32
    → in_cksum bs ≡ complement (fold_again (fold (total_of bs)))
unfolding in_cksum
in_cksum_total bs h =
    ap (λ s. complement (fold_again (fold s))) (sum_from-total_of 0 bs (omega arith) ∙ omega arith)

-- Of a packet of less than 65,000 bytes with a word of zeros at an even place: where the checksum is
-- stored in that word, the checksum of the packet is 0.
pub in_cksum_verifies :
    (words : List (ℕ × ℕ)) (bytes : List ℕ)
    → All IsByte (stored words (0 ∷ 0 ∷ bytes))
    → length (stored words (0 ∷ 0 ∷ bytes)) < 65000
    → (let c = in_cksum (stored words (0 ∷ 0 ∷ bytes)) in
        in_cksum (stored words (c % 256 ∷ c / 256 ∷ bytes)) ≡ 0)
in_cksum_verifies words bytes h l =
    let zeroed = stored words (0 ∷ 0 ∷ bytes) in
    let c = in_cksum zeroed in
    let t = total_of zeroed in
    let bound : t ≤ 65535 * length zeroed = total_bound zeroed h in
    let e : c ≡ complement (fold_again (fold t)) = in_cksum_total zeroed (omega arith) in
    let z : t ≡ words_total words + (0 + total_of bytes) = total_of-stored words (0 ∷ 0 ∷ bytes) in
    let filled = stored words (c % 256 ∷ c / 256 ∷ bytes) in
    let f : total_of filled ≡ words_total words + (word (c % 256) (c / 256) + total_of bytes) =
      total_of-stored words (c % 256 ∷ c / 256 ∷ bytes) in
    let s : total_of filled ≡ t + complement (fold_again (fold t)) = omega (arith, e, f, z) in
    in_cksum_total filled (omega (arith, s))
    ∙ ap (λ n. complement (fold_again (fold n))) s
    ∙ verifies t (omega arith)
