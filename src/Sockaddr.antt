-- ===== src/Sockaddr.antt =====
-- The functions of unpv1e3/lib that work on any socket address: sock_get_port.c, sock_set_port.c,
-- sock_set_addr.c, sock_set_wild.c, sock_cmp_addr.c, sock_cmp_port.c and family_to_level.c. The
-- configuration is that of unpv1e3/config.h: IPV6 is defined, HAVE_SOCKADDR_DL_STRUCT is not.
pub mod Laws
pub mod Ntop
use unix_network_programming.Base.{
  ℕ, ◌%◌, List, [], ◌∷◌, Bool, Option, none, some, ◌==◌, ltb, if◌then◌else◌, take, replicate,
}
use unix_network_programming.CString.{c_string}

-- A socket address by its family: the port as it is stored and the address, or the bytes of
-- sun_path; the rest of an address of another family is not looked at.
pub data Sockaddr : Type 0 where
  inet inet6 : ℕ → List ℕ → Sockaddr
  local : List ℕ → Sockaddr
  other : ℕ → Sockaddr

-- sizeof(struct in_addr) and sizeof(struct in6_addr)
abbrev pub in_addr_size : ℕ
in_addr_size = 4

abbrev pub in6_addr_size : ℕ
in6_addr_size = 16

-- in_port_t
abbrev pub uint16 : ℕ → ℕ
uint16 n = n % 65536

-- `none` is -1.
unfoldable pub sock_get_port : Sockaddr → Option ℕ
sock_get_port (inet port addr) = some port
sock_get_port (inet6 port addr) = some port
sock_get_port (local path) = none
sock_get_port (other family) = none

unfoldable pub sock_set_port : ℕ → Sockaddr → Sockaddr
sock_set_port p (inet port addr) = inet (uint16 p) addr
sock_set_port p (inet6 port addr) = inet6 (uint16 p) addr
sock_set_port p (local path) = local path
sock_set_port p (other family) = other family

-- The bytes at `addr` are as many as the family's address has, or more.
unfoldable pub sock_set_addr : List ℕ → Sockaddr → Sockaddr
sock_set_addr bytes (inet port addr) = inet port (take in_addr_size bytes)
sock_set_addr bytes (inet6 port addr) = inet6 port (take in6_addr_size bytes)
sock_set_addr bytes (local path) = local path
sock_set_addr bytes (other family) = other family

unfoldable pub sock_set_wild : Sockaddr → Sockaddr
unfolding sock_set_addr
sock_set_wild (inet port addr) = sock_set_addr (replicate in_addr_size 0) (inet port addr)
sock_set_wild (inet6 port addr) = sock_set_addr (replicate in6_addr_size 0) (inet6 port addr)
sock_set_wild (local path) = local path
sock_set_wild (other family) = other family

-- The sign of what memcmp and strcmp return, and of -1, 0 and 1.
pub data Sign : Type 0 where
  negative zero positive : Sign

-- The sign of memcmp.
abbrev pub compare_bytes : List ℕ → List ℕ → Sign
compare_bytes [] [] = zero
compare_bytes [] (b ∷ bs) = negative
compare_bytes (a ∷ xs) [] = positive
compare_bytes (a ∷ xs) (b ∷ bs) =
    let rest = compare_bytes xs bs in
    if ltb a b then negative else if ltb b a then positive else rest

unfoldable pub sock_cmp_addr : Sockaddr → Sockaddr → Sign
sock_cmp_addr (inet p a) (inet q b) = compare_bytes (take in_addr_size a) (take in_addr_size b)
sock_cmp_addr (inet6 p a) (inet6 q b) = compare_bytes (take in6_addr_size a) (take in6_addr_size b)
sock_cmp_addr (local p) (local q) = compare_bytes (c_string p) (c_string q)
sock_cmp_addr _ _ = negative

-- The value of an `==`.
abbrev pub truth : Bool → Sign
truth b = if b then positive else zero

unfoldable pub sock_cmp_port : Sockaddr → Sockaddr → Sign
sock_cmp_port (inet p a) (inet q b) = truth (p == q)
sock_cmp_port (inet6 p a) (inet6 q b) = truth (p == q)
sock_cmp_port _ _ = negative
