-- ===== src/Tests/Sockaddr.antt =====
-- Socket addresses, and their texts, at concrete ones.
use unix_network_programming.Base.{
  ℕ, ◌≤◌, ◌≡◌, refl, subst, List, [], ◌∷◌, length, codes, Option, some, none, arith, replicate,
}
use unix_network_programming.Decimal.{decimal}
use unix_network_programming.Sockaddr.{Sockaddr, inet, inet6, other}
use unix_network_programming.Sockaddr.Ntop.{InetNtop, text, sock_ntop, sock_ntop_host}
use unix_network_programming.Sockaddr.Ntop.Laws.{
  InBuffer, host_part, port_part, sock_ntop-InBuffer, sock_ntop_inet,
}

abbrev here : Sockaddr
here = inet 20480 (127 ∷ 0 ∷ 0 ∷ 1 ∷ [])

abbrev there : Sockaddr
there = inet 20480 (127 ∷ 0 ∷ 0 ∷ 2 ∷ [])

-- One text for every address of a family.
abbrev printer : InetNtop
printer = record { four = λ a. some (codes "127.0.0.1"); six = λ a. some (codes "::1") }

with_port : sock_ntop printer here 16 ≡ text (codes "127.0.0.1:80")
unfolding sock_ntop decimal
with_port = refl

with_port6 : sock_ntop printer (inet6 20480 []) 28 ≡ text (codes "[::1]:80")
unfolding sock_ntop decimal
with_port6 = refl

without_port : sock_ntop_host printer here 16 ≡ text (codes "127.0.0.1")
unfolding sock_ntop_host
without_port = refl

unknown : sock_ntop printer (other 7) 16 ≡ text (codes "sock_ntop: unknown AF_xxx: 7, len 16")
unfolding sock_ntop decimal
unknown = refl

abbrev or_empty : Option (List ℕ) → List ℕ
or_empty none = []
or_empty (some s) = s

short_text : (addr s : List ℕ) → printer.four addr ≡ some s → length s ≤ 15
short_text addr s e = subst (λ o. length (or_empty o) ≤ 15) e (omega arith)

short_text6 : (addr s : List ℕ) → printer.six addr ≡ some s → length s ≤ 45
short_text6 addr s e = subst (λ o. length (or_empty o) ≤ 45) e (omega arith)

sock_ntop-InBuffer_example : InBuffer (sock_ntop printer (inet6 65535 (replicate 16 255)) 28)
sock_ntop-InBuffer_example =
    sock_ntop-InBuffer printer (inet6 65535 (replicate 16 255)) 28 short_text short_text6

sock_ntop_inet_example :
    (t : List ℕ) × (sock_ntop printer here 16 ≡ text t)
    × (host_part t ≡ codes "127.0.0.1")
    × (port_part t ≡ 80)
sock_ntop_inet_example =
    sock_ntop_inet printer (127 ∷ 0 ∷ 0 ∷ 1 ∷ []) (codes "127.0.0.1") 20480 16 refl (omega arith)
      (ground arith)
