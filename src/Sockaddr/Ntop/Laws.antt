-- ===== src/Sockaddr/Ntop/Laws.antt =====
-- The texts of `sock_ntop`.
use unix_network_programming.Base.{
  ℕ, ◌+◌, ◌≤◌, ◌<◌, ◌≡◌, ◌≢◌, refl, ap, ◌∙◌, inl, inr, List, [], ◌∷◌, ◌++◌, codes, Bool, true,
  false, Option, none, some, ◌==◌, leb, if◌then◌else◌, take, take_all, length, length-append,
  length-take, All, arith, Bool-cases, then_branch, else_branch, le→leb,
}
use unix_network_programming.CString.{c_string}
use unix_network_programming.Decimal.{decimal, value, value-decimal, length-decimal}
use unix_network_programming.Sockaddr.{Sockaddr, inet, inet6, local, other}
use unix_network_programming.Sockaddr.Ntop.{
  str_room, portstr_room, ntohs, InetNtop, Text, text, null, overflow, append_port, ntop4, ntop6,
  is_bound, sock_ntop,
}

-- A text inside `str`, with its null.
abbrev pub InBuffer : Text → Type 0
InBuffer (text t) = length t ≤ str_room
InBuffer null = Unit
InBuffer overflow = ⊥

ntohs_bound : (n : ℕ) → ntohs n < 65536
ntohs_bound n = omega arith

append_port-InBuffer :
    (str portstr : List ℕ)
    → length str + length portstr ≤ str_room
    → InBuffer (append_port str portstr)
append_port-InBuffer str portstr h =
    rw (le→leb (length (str ++ portstr)) str_room (rw (length-append str portstr) h))
      (rw (length-append str portstr) h)

if_InBuffer : (b : Bool) (x y : Text) → InBuffer x → InBuffer y → InBuffer (if b then x else y)
if_InBuffer true x y h k = h
if_InBuffer false x y h k = k

cut : (k : ℕ) (xs : List ℕ) → length (take k xs) ≤ k
cut k xs = omega (arith, length-take k xs)

ntop4-InBuffer :
    (o : Option (List ℕ)) (port : ℕ)
    → ((s : List ℕ) → o ≡ some s → length s ≤ 15)
    → InBuffer (ntop4 o port)
ntop4-InBuffer none port h = tt
ntop4-InBuffer (some s) port h =
    let k = h s refl in
    let portstr = codes ":" ++ decimal (ntohs port) in
    if_InBuffer (ntohs port == 0) _ _ (omega arith)
      (append_port-InBuffer s (take portstr_room portstr) (omega (arith, cut portstr_room portstr)))

ntop6-InBuffer :
    (o : Option (List ℕ)) (port : ℕ)
    → ((s : List ℕ) → o ≡ some s → length s ≤ 45)
    → InBuffer (ntop6 o port)
ntop6-InBuffer none port h = tt
ntop6-InBuffer (some s) port h =
    let k = h s refl in
    let portstr = codes "]:" ++ decimal (ntohs port) in
    if_InBuffer (ntohs port == 0) _ _ (omega arith) (
      append_port-InBuffer (codes "[" ++ s) (take portstr_room portstr)
        (omega (arith, cut portstr_room portstr)))

-- The text of every address fits into the static buffer, where inet_ntop writes no more than
-- INET_ADDRSTRLEN and INET6_ADDRSTRLEN bytes with the null, as it documents.
pub sock_ntop-InBuffer :
    (f : InetNtop) (x : Sockaddr) (salen : ℕ)
    → ((addr s : List ℕ) → f.four addr ≡ some s → length s ≤ 15)
    → ((addr s : List ℕ) → f.six addr ≡ some s → length s ≤ 45)
    → InBuffer (sock_ntop f x salen)
unfolding sock_ntop
sock_ntop-InBuffer f (inet port addr) salen h k = ntop4-InBuffer (f.four addr) port (h addr)
sock_ntop-InBuffer f (inet6 port addr) salen h k = ntop6-InBuffer (f.six addr) port (k addr)
sock_ntop-InBuffer f (local path) salen h k = elim (Bool-cases (is_bound path)) [
  | inl e ↦ rw e (cut str_room (c_string path))
  | inr e ↦ rw e (omega arith)
]
sock_ntop-InBuffer f (other family) salen h k =
    cut str_room
      (codes "sock_ntop: unknown AF_xxx: " ++ decimal family ++ codes ", len " ++ decimal salen)

-- What stands before the colon, and the number behind it, 0 where there is no colon.
abbrev pub host_part : List ℕ → List ℕ
host_part [] = []
host_part (c ∷ cs) = let rest = host_part cs in if c == b':' then [] else c ∷ rest

abbrev pub port_part : List ℕ → ℕ
port_part [] = 0
port_part (c ∷ cs) = let rest = port_part cs in if c == b':' then value 0 cs else rest

host_part-append : (s t : List ℕ) → All (λ c. c ≢ b':') s → host_part (s ++ b':' ∷ t) ≡ s
host_part-append [] t h = refl
host_part-append (c ∷ s) t (h, hs) =
    else_branch {b = c == b':'} _ _ (ground arith) ∙ ap (λ xs. c ∷ xs) (host_part-append s t hs)

port_part-append : (s t : List ℕ) → All (λ c. c ≢ b':') s → port_part (s ++ b':' ∷ t) ≡ value 0 t
port_part-append [] t h = refl
port_part-append (c ∷ s) t (h, hs) =
    else_branch {b = c == b':'} _ _ (ground arith) ∙ port_part-append s t hs

host_part_whole : (s : List ℕ) → All (λ c. c ≢ b':') s → host_part s ≡ s
host_part_whole [] h = refl
host_part_whole (c ∷ s) (h, hs) =
    else_branch {b = c == b':'} _ _ (ground arith) ∙ ap (λ xs. c ∷ xs) (host_part_whole s hs)

port_part_whole : (s : List ℕ) → All (λ c. c ≢ b':') s → port_part s ≡ 0
port_part_whole [] h = refl
port_part_whole (c ∷ s) (h, hs) =
    else_branch {b = c == b':'} _ _ (ground arith) ∙ port_part_whole s hs

zero_test : (n : ℕ) → (n == 0) ≡ true → 0 ≡ n
zero_test n h = ground arith

-- Nothing of the port is cut off.
append_all :
    (s p : List ℕ)
    → length s ≤ 15
    → length p ≤ 6
    → append_port s (take portstr_room p) ≡ text (s ++ p)
append_all s p h k =
    ap (append_port s) (take_all portstr_room p (omega arith))
    ∙ then_branch {b = leb (length (s ++ p)) str_room} _ _
        (le→leb (length (s ++ p)) str_room (rw (length-append s p) (omega arith)))

-- Where inet_ntop gives at most 15 characters and no colon, the text of an IPv4 address gives back that
-- text and the port in the host's byte order.
pub sock_ntop_inet :
    (f : InetNtop) (addr s : List ℕ) (port salen : ℕ)
    → f.four addr ≡ some s
    → length s ≤ 15
    → All (λ c. c ≢ b':') s
    → (t : List ℕ) × (sock_ntop f (inet port addr) salen ≡ text t)
      × (host_part t ≡ s)
      × (port_part t ≡ ntohs port)
unfolding sock_ntop
sock_ntop_inet f addr s port salen e l h =
    let n = ntohs port in
    let portstr = codes ":" ++ decimal n in
    elim (Bool-cases (n == 0)) [
      | inl z ↦ (
        s,
        ap (λ o. ntop4 o port) e ∙ then_branch {b = n == 0} _ _ z,
        host_part_whole s h,
        port_part_whole s h ∙ zero_test n z,
      )
      | inr z ↦ (
        s ++ portstr,
        ap (λ o. ntop4 o port) e
            ∙ else_branch {b = n == 0} _ _ z
            ∙ append_all s portstr l (omega (arith, length-decimal n (ntohs_bound port))),
        host_part-append s (decimal n) h,
        port_part-append s (decimal n) h ∙ value-decimal n (omega (arith, ntohs_bound port)),
      )
    ]
