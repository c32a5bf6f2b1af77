-- ===== src/Gai/Entry.antt =====
-- `ga_aistruct`, `ga_clone` and `ga_port` of unpv1e3/libgai.
pub mod Laws
pub mod Families
use unix_network_programming.Base.{
  ℕ, zero, suc, ◌+◌, List, [], ◌∷◌, ◌++◌, Bool, true, false, ◌||◌, ◌&&◌, not, Option, none, some,
  ◌==◌, leb, if◌then◌else◌, length, bit_and,
}
use unix_network_programming.Gai.{
  af_inet, af_inet6, af_local, ai_passive, eai_service, Hints, SockAddr, AddrInfo, World, Call,
  pure, fail, done, ◌>>=◌, ◌>>◌, alloc,
}

-- sizeof(struct sockaddr_in), sizeof(struct sockaddr_in6), sizeof(struct sockaddr_un), and that of
-- sun_path.
abbrev pub sockaddr_in_size : ℕ
sockaddr_in_size = 16

abbrev pub sockaddr_in6_size : ℕ
sockaddr_in6_size = 28

abbrev pub sockaddr_un_size : ℕ
sockaddr_un_size = 110

abbrev pub sun_path_size : ℕ
sun_path_size = 108

-- The structure before its address is filled in.
abbrev pub blank : Hints → ℕ → AddrInfo
blank hints family = record {
  clone = hints.socktype == 0;
  family = family;
  socktype = hints.socktype;
  protocol = hints.protocol;
  addrlen = 0;
  canonname = none;
  addr = none;
}

abbrev pub with_addr : ℕ → List ℕ → ℕ → AddrInfo → AddrInfo
with_addr family bytes size ai = record ai {
  addr = some (record { family = family; port = 0; bytes = bytes });
  addrlen = size;
}

pub unlink : List ℕ → Call (Unit {0})
unlink path w = done tt (record w { unlinked = w.unlinked ++ path ∷ [] })

-- The address is allocated and copied, with the size of its structure.
pub fill : ℕ → List ℕ → ℕ → AddrInfo → Call AddrInfo
fill family bytes size ai = do alloc; pure (with_addr family bytes size ai)

-- The structure that is linked to the end of the list; on an error the caller frees the list.
unfoldable pub ga_aistruct : Hints → List ℕ → ℕ → Call AddrInfo
unfolding fill unlink alloc
ga_aistruct hints addr family = do
  alloc
  let ai = blank hints family
  let local = do
    made ← fill af_local addr sockaddr_un_size ai
    if not (bit_and hints.flags ai_passive == 0) then (do unlink addr; pure made) else pure made
  if family == af_inet
      then fill af_inet addr sockaddr_in_size ai
      else if family == af_inet6
      then fill af_inet6 addr sockaddr_in6_size ai
      else if family == af_local
      then (if leb sun_path_size (length addr) then fail eai_service else local)
      else pure ai

-- The copy that is linked behind a structure: the flag is off, and there is no canonical name.
unfoldable pub ga_clone : AddrInfo → Call AddrInfo
unfolding alloc
ga_clone ai = do alloc; alloc; pure (record ai { clone = false; canonname = none })

abbrev pub set_port : ℕ → Option SockAddr → Option SockAddr
set_port port none = none
set_port port (some a) = some (record a { port = port })

abbrev pub is_inet : ℕ → Bool
is_inet family = family == af_inet || family == af_inet6

-- The socket type, and for IPv4 and IPv6 the port.
abbrev pub assign : ℕ → ℕ → AddrInfo → AddrInfo
assign port socktype ai =
    let typed = record ai { socktype = socktype } in
    if is_inet ai.family then record typed { addr = set_port port ai.addr } else typed

-- What `nfound` grows by.
abbrev pub found : AddrInfo → ℕ
found ai = if is_inet ai.family then 1 else 0

-- The structures that a visited one becomes, in front of what the rest of the list becomes.
abbrev pub in_front : List AddrInfo → ℕ → List AddrInfo × ℕ → Call (List AddrInfo × ℕ)
in_front before n (after, m) = pure (before ++ after, n + m)

-- One round of the loop, given the rest of it.
pub visit : AddrInfo → ℕ → ℕ → Call (List AddrInfo × ℕ) → Call (List AddrInfo × ℕ)
visit ai port socktype rest =
    let assigned = rest >>= in_front (assign port socktype ai ∷ []) (found ai) in
    let cloned =
      ga_clone ai >>= λ new. rest >>= in_front (ai ∷ assign port socktype new ∷ []) (found new) in
    let skipped = rest >>= in_front (ai ∷ []) 0 in
    if ai.clone
    then (if ai.socktype == 0 then assigned else cloned)
    else if ai.socktype == socktype
    then assigned
    else skipped

-- The list afterwards, and `nfound`.
unfoldable pub ga_port : List AddrInfo → ℕ → ℕ → Call (List AddrInfo × ℕ)
unfolding visit ga_clone
ga_port [] port socktype = pure ([], 0)
ga_port (ai ∷ rest) port socktype = visit ai port socktype (ga_port rest port socktype)
