-- ===== src/Sockaddr/Ntop.antt =====
-- `sock_ntop` and `sock_ntop_host` of unpv1e3/lib.
pub mod Laws
use unix_network_programming.Base.{
  ℕ, ◌+◌, ◌*◌, ◌/◌, ◌%◌, List, [], ◌∷◌, ◌++◌, codes, Bool, true, false, Option, none, some, ◌==◌,
  leb, if◌then◌else◌, take, length,
}
use unix_network_programming.CString.{c_string}
use unix_network_programming.Decimal.{decimal}
use unix_network_programming.Sockaddr.{Sockaddr, inet, inet6, local, other}

-- sizeof(str) - 1 and sizeof(portstr) - 1: the characters that snprintf leaves room for.
abbrev pub str_room : ℕ
str_room = 127

abbrev pub portstr_room : ℕ
portstr_room = 7

abbrev pub ntohs : ℕ → ℕ
ntohs n = n % 256 * 256 + n / 256 % 256

-- inet_ntop for the two families; `none` is NULL.
pub record InetNtop : Type 0 where
  pub four : List ℕ → Option (List ℕ)
  pub six : List ℕ → Option (List ℕ)

-- The text in `str`, in a buffer of 128 bytes, or the write of strcat behind its end.
pub data Text : Type 0 where
  text : List ℕ → Text
  null overflow : Text

-- strcat(str, portstr)
abbrev pub append_port : List ℕ → List ℕ → Text
append_port str portstr =
    if leb (length (str ++ portstr)) str_room then text (str ++ portstr) else overflow

abbrev pub ntop4 : Option (List ℕ) → ℕ → Text
ntop4 none port = null
ntop4 (some str) port =
    if ntohs port == 0
    then text str
    else append_port str (take portstr_room (codes ":" ++ decimal (ntohs port)))

-- The text begins at str + 1 where there is no port.
abbrev pub ntop6 : Option (List ℕ) → ℕ → Text
ntop6 none port = null
ntop6 (some str) port =
    if ntohs port == 0
    then text str
    else append_port (codes "[" ++ str) (take portstr_room (codes "]:" ++ decimal (ntohs port)))

abbrev pub is_bound : List ℕ → Bool
is_bound [] = false
is_bound (b ∷ bs) = if b == 0 then false else true

abbrev pub unix_text : List ℕ → List ℕ
unix_text path =
    if is_bound path then take str_room (c_string path) else codes "(no pathname bound)"

-- `salen` is the length that the caller gives.
unfoldable pub sock_ntop : InetNtop → Sockaddr → ℕ → Text
sock_ntop f (inet port addr) salen = ntop4 (f.four addr) port
sock_ntop f (inet6 port addr) salen = ntop6 (f.six addr) port
sock_ntop f (local path) salen = text (unix_text path)
sock_ntop f (other family) salen = text (
    take str_room
      (codes "sock_ntop: unknown AF_xxx: " ++ decimal family ++ codes ", len " ++ decimal salen))

abbrev pub or_null : Option (List ℕ) → Text
or_null none = null
or_null (some str) = text str

unfoldable pub sock_ntop_host : InetNtop → Sockaddr → ℕ → Text
sock_ntop_host f (inet port addr) salen = or_null (f.four addr)
sock_ntop_host f (inet6 port addr) salen = or_null (f.six addr)
sock_ntop_host f (local path) salen = text (unix_text path)
sock_ntop_host f (other family) salen = text (
    take str_room (
      codes "sock_ntop_host: unknown AF_xxx: "
      ++ decimal family
      ++ codes ", len "
      ++ decimal salen))
