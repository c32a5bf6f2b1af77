-- ===== src/Gai/Check.antt =====
-- `ga_echeck` of unpv1e3/libgai/ga_echeck.c.
pub mod Laws
use unix_network_programming.Base.{ℕ, Bool, true, false, not, ◌&&◌, ◌==◌, if◌then◌else◌, bit_and}
use unix_network_programming.Gai.{
  af_unspec, af_inet, af_inet6, af_local, sock_stream, sock_dgram, sock_raw, eai_badflags,
  eai_noname, eai_socktype, eai_family, Text, is_blank,
}

-- ~(AI_PASSIVE | AI_CANONNAME), as 32 bits.
abbrev pub unknown_flags : ℕ
unknown_flags = 0xfffffffc

abbrev pub bad_inet_socktype : ℕ → Bool
bad_inet_socktype t =
    not (t == 0) && (not (t == sock_stream) && (not (t == sock_dgram) && not (t == sock_raw)))

abbrev pub bad_local_socktype : ℕ → Bool
bad_local_socktype t = not (t == 0) && (not (t == sock_stream) && not (t == sock_dgram))

-- The `switch (family)`.
pub check_family : ℕ → ℕ → ℕ
check_family family socktype =
    if family == af_unspec
    then 0
    else if family == af_inet
    then (if bad_inet_socktype socktype then eai_socktype else 0)
    else if family == af_inet6
    then (if bad_inet_socktype socktype then eai_socktype else 0)
    else if family == af_local
    then (if bad_local_socktype socktype then eai_socktype else 0)
    else eai_family

unfoldable pub ga_echeck : Text → Text → ℕ → ℕ → ℕ → ℕ
unfolding check_family
ga_echeck hostname servname flags family socktype =
    if not (bit_and flags unknown_flags == 0)
    then eai_badflags
    else if is_blank hostname && is_blank servname
    then eai_noname
    else check_family family socktype
