-- ===== src/Gai/Unix.antt =====
-- `ga_unix` of unpv1e3/libgai/ga_unix.c.
pub mod Families
use unix_network_programming.Base.{
  ℕ, List, [], ◌∷◌, Bool, not, ◌&&◌, Option, none, some, ◌==◌, if◌then◌else◌, bit_and,
}
use unix_network_programming.Gai.{
  af_unspec, af_local, sock_stream, sock_dgram, ai_canonname, eai_addrfamily, eai_system, Text,
  Hints, AddrInfo, Call, pure, fail, ◌>>=◌, ◌>>◌, alloc, Resolver,
}
use unix_network_programming.Gai.Entry.{ga_aistruct}

-- The name goes to the head of the list.
abbrev pub set_canonname : Text → List AddrInfo → List AddrInfo
set_canonname name [] = []
set_canonname name (ai ∷ ais) = record ai { canonname = name } ∷ ais

-- The structures: stream and datagram where no socket type is named.
pub unix_entries : Hints → List ℕ → Call (List AddrInfo)
unix_entries hints path =
    if hints.socktype == 0
    then (do
      stream ← ga_aistruct (record hints { socktype = sock_stream }) path af_local
      dgram ← ga_aistruct (record hints { socktype = sock_dgram }) path af_local
      pure (stream ∷ dgram ∷ []))
    else (do only ← ga_aistruct hints path af_local; pure (only ∷ []))

-- The host's own name, from uname.
pub name_host : Text → List AddrInfo → Call (List AddrInfo)
name_host none ais = fail eai_system
name_host (some name) ais = do alloc; pure (set_canonname (some name) ais)

unfoldable pub ga_unix : Resolver → List ℕ → Hints → Call (List AddrInfo)
unfolding unix_entries name_host
ga_unix r path hints = do
  let made = do
    ais ← unix_entries hints path
    if not (bit_and hints.flags ai_canonname == 0) then name_host r.nodename ais else pure ais
  if not (hints.family == af_unspec) && not (hints.family == af_local)
      then fail eai_addrfamily
      else made
