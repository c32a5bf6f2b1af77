-- ===== src/Gai/Check/Laws.antt =====
-- When `ga_echeck` accepts its arguments.
use unix_network_programming.Base.{ℕ, ◌≤◌, ◌≡◌, ◌↔◌, ◌⊎◌, false, ◌&&◌, bit_and, arith}
use unix_network_programming.Gai.{
  af_unspec, af_inet, af_inet6, af_local, sock_dgram, sock_raw, Text, is_blank,
}
use unix_network_programming.Gai.Check.{unknown_flags, ga_echeck}

-- A socket type is 0 or at most the last that the family has.
abbrev pub Supported : ℕ → ℕ → Type 0
Supported family socktype =
    (family ≡ af_unspec)
    ⊎ (((family ≡ af_inet) ⊎ (family ≡ af_inet6)) × (socktype ≤ sock_raw))
    ⊎ ((family ≡ af_local) × (socktype ≤ sock_dgram))

-- `ga_echeck` returns 0 exactly where no unknown flag is set, a host or a service is given, and the
-- family is known and has the socket type.
pub ga_echeck_iff :
    (hostname servname : Text) (flags family socktype : ℕ)
    → (ga_echeck hostname servname flags family socktype ≡ 0) ↔ (
        (bit_and flags unknown_flags ≡ 0)
        × ((is_blank hostname && is_blank servname) ≡ false)
        × Supported family socktype)
unfolding ga_echeck
ga_echeck_iff hostname servname flags family socktype = (λ h. ground arith, λ h. ground arith)
