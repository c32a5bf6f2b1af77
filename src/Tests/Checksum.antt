-- ===== src/Tests/Checksum.antt =====
-- The checksum of a few bytes, of which one is odd.
use unix_network_programming.Base.{◌/◌, ◌%◌, ◌≡◌, refl, [], ◌∷◌, arith}
use unix_network_programming.Checksum.{in_cksum}
use unix_network_programming.Checksum.Laws.{in_cksum_verifies}

sum : in_cksum (8 ∷ 0 ∷ 0 ∷ 0 ∷ 255 ∷ 255 ∷ 3 ∷ []) ≡ 65524
unfolding in_cksum
sum = refl

in_cksum_verifies_example :
    (let c = in_cksum (8 ∷ 0 ∷ 0 ∷ 0 ∷ 255 ∷ 255 ∷ 3 ∷ []) in
      in_cksum (8 ∷ 0 ∷ c % 256 ∷ c / 256 ∷ 255 ∷ 255 ∷ 3 ∷ []) ≡ 0)
in_cksum_verifies_example =
    in_cksum_verifies ((8, 0) ∷ []) (255 ∷ 255 ∷ 3 ∷ []) (ground arith) (omega arith)
