-- ===== src/Checksum.antt =====
-- unpv1e3/libfree/in_cksum.c, the checksum of the internet headers, on a machine that stores the low
-- byte of a word first.
pub mod Laws
use unix_network_programming.Base.{ℕ, ◌+◌, ◌-◌, ◌*◌, ◌/◌, ◌%◌, ◌^◌, List, [], ◌∷◌}

-- A word of 16 bits as it is stored.
abbrev pub word : ℕ → ℕ → ℕ
word low high = low + high * 256

-- The loop, and the odd byte; the sum has 32 bits.
pub sum_from : ℕ → List ℕ → ℕ
sum_from sum [] = sum
sum_from sum (low ∷ []) = (sum + low) % 2 ^ 32
sum_from sum (low ∷ high ∷ bytes) = sum_from ((sum + word low high) % 2 ^ 32) bytes

-- The carries are added, twice.
abbrev pub fold : ℕ → ℕ
fold sum = sum / 65536 + sum % 65536

abbrev pub fold_again : ℕ → ℕ
fold_again sum = (sum + sum / 65536) % 2 ^ 32

-- ~sum, cut to 16 bits.
abbrev pub complement : ℕ → ℕ
complement sum = (2 ^ 32 - 1 - sum) % 65536

unfoldable pub in_cksum : List ℕ → ℕ
unfolding sum_from
in_cksum bytes = complement (fold_again (fold (sum_from 0 bytes)))
