-- ===== src/Sockaddr/Laws.antt =====
-- What the functions on socket addresses set, get and compare.
use unix_network_programming.Base.{
  ℕ, ◌<◌, ◌≡◌, ◌↔◌, refl, ap, ap₂, sym, ◌∙◌, List, [], ◌∷◌, some, ltb, if◌then◌else◌, take, arith,
}
use unix_network_programming.CString.{c_string}
use unix_network_programming.Sockaddr.{
  Sockaddr, inet, inet6, local, other, in_addr_size, in6_addr_size, sock_get_port, sock_set_port,
  sock_set_addr, sock_set_wild, Sign, negative, zero, positive, compare_bytes, sock_cmp_addr,
  sock_cmp_port,
}

compare_refl : (xs : List ℕ) → compare_bytes xs xs ≡ zero
compare_refl [] = refl
compare_refl (x ∷ xs) = ground (arith, compare_refl xs)

heads_equal :
    (x y : ℕ) (rest : Sign)
    → (if ltb x y then negative else if ltb y x then positive else rest) ≡ zero
    → x ≡ y
heads_equal x y rest h = ground arith

tails_equal :
    (x y : ℕ) (rest : Sign)
    → (if ltb x y then negative else if ltb y x then positive else rest) ≡ zero
    → rest ≡ zero
tails_equal x y rest h = ground arith

compare_zero : (xs ys : List ℕ) → compare_bytes xs ys ≡ zero → xs ≡ ys
compare_zero [] [] h = refl
compare_zero [] (y ∷ ys) h = ground arith
compare_zero (x ∷ xs) [] h = ground arith
compare_zero (x ∷ xs) (y ∷ ys) h =
    ap₂ (λ z zs. z ∷ zs) (heads_equal x y (compare_bytes xs ys) h)
      (compare_zero xs ys (tails_equal x y (compare_bytes xs ys) h))

compare_iff : (xs ys : List ℕ) → (compare_bytes xs ys ≡ zero) ↔ (xs ≡ ys)
compare_iff xs ys = (compare_zero xs ys, λ h. ap (compare_bytes xs) (sym h) ∙ compare_refl xs)

-- Two addresses of one family, the ports aside.
abbrev pub SameAddr : Sockaddr → Sockaddr → Type 0
SameAddr (inet p a) (inet q b) = take in_addr_size a ≡ take in_addr_size b
SameAddr (inet6 p a) (inet6 q b) = take in6_addr_size a ≡ take in6_addr_size b
SameAddr (local p) (local q) = c_string p ≡ c_string q
SameAddr _ _ = ⊥

-- `sock_cmp_addr` returns 0 exactly for two addresses of one family that are the same, the ports
-- aside.
pub sock_cmp_addr_iff : (x y : Sockaddr) → (sock_cmp_addr x y ≡ zero) ↔ SameAddr x y
unfolding sock_cmp_addr
sock_cmp_addr_iff (inet p a) (inet q b) = compare_iff (take in_addr_size a) (take in_addr_size b)
sock_cmp_addr_iff (inet6 p a) (inet6 q b) =
    compare_iff (take in6_addr_size a) (take in6_addr_size b)
sock_cmp_addr_iff (local p) (local q) = compare_iff (c_string p) (c_string q)
sock_cmp_addr_iff (inet p a) (inet6 q b) = ground arith
sock_cmp_addr_iff (inet p a) (local q) = ground arith
sock_cmp_addr_iff (inet p a) (other f) = ground arith
sock_cmp_addr_iff (inet6 p a) (inet q b) = ground arith
sock_cmp_addr_iff (inet6 p a) (local q) = ground arith
sock_cmp_addr_iff (inet6 p a) (other f) = ground arith
sock_cmp_addr_iff (local p) (inet q b) = ground arith
sock_cmp_addr_iff (local p) (inet6 q b) = ground arith
sock_cmp_addr_iff (local p) (other f) = ground arith
sock_cmp_addr_iff (other f) y = ground arith

-- Two internet addresses of one family with the same port.
abbrev pub SamePort : Sockaddr → Sockaddr → Type 0
SamePort (inet p a) (inet q b) = p ≡ q
SamePort (inet6 p a) (inet6 q b) = p ≡ q
SamePort _ _ = ⊥

-- `sock_cmp_port` returns 1, and not 0, exactly for two internet addresses of one family with the
-- same port.
pub sock_cmp_port_iff : (x y : Sockaddr) → (sock_cmp_port x y ≡ positive) ↔ SamePort x y
unfolding sock_cmp_port
sock_cmp_port_iff (inet p a) (inet q b) = ground arith
sock_cmp_port_iff (inet6 p a) (inet6 q b) = ground arith
sock_cmp_port_iff (inet p a) (inet6 q b) = ground arith
sock_cmp_port_iff (inet p a) (local q) = ground arith
sock_cmp_port_iff (inet p a) (other f) = ground arith
sock_cmp_port_iff (inet6 p a) (inet q b) = ground arith
sock_cmp_port_iff (inet6 p a) (local q) = ground arith
sock_cmp_port_iff (inet6 p a) (other f) = ground arith
sock_cmp_port_iff (local p) y = ground arith
sock_cmp_port_iff (other f) y = ground arith

abbrev pub IsInternet : Sockaddr → Type 0
IsInternet (inet p a) = Unit
IsInternet (inet6 p a) = Unit
IsInternet (local p) = ⊥
IsInternet (other f) = ⊥

-- For an internet address: the port that was set, below 2^16, is the one that is got, and leaves
-- the address; the wildcard leaves the port, and gives the same address to all of a family.
pub sock_set_lem :
    (p : ℕ) (x : Sockaddr)
    → IsInternet x
    → p < 65536
    → (sock_get_port (sock_set_port p x) ≡ some p)
      × (sock_cmp_addr (sock_set_port p x) x ≡ zero)
      × (sock_get_port (sock_set_wild x) ≡ sock_get_port x)
      × (sock_cmp_addr (sock_set_wild x) (sock_set_wild (sock_set_port p x)) ≡ zero)
unfolding sock_get_port sock_set_port sock_set_wild sock_set_addr sock_cmp_addr
sock_set_lem p (inet q a) h l =
    (ap some (omega arith), compare_refl (take in_addr_size a), refl, refl)
sock_set_lem p (inet6 q a) h l =
    (ap some (omega arith), compare_refl (take in6_addr_size a), refl, refl)
sock_set_lem p (local q) h l = elim h [ ]
sock_set_lem p (other f) h l = elim h [ ]
