-- ===== src/Gai/Service.antt =====
-- `ga_serv` of unpv1e3/libgai/ga_serv.c.
pub mod Laws
pub mod Families
use unix_network_programming.Base.{ℕ, ◌+◌, List, Option, none, some, ◌==◌, ◌||◌, if◌then◌else◌}
use unix_network_programming.Gai.{
  sock_stream, sock_dgram, eai_noname, eai_service, Hints, AddrInfo, Call, pure, fail, ◌>>=◌,
  Protocol, tcp, udp, Resolver, htons, starts_with_digit, atoi_from,
}
use unix_network_programming.Gai.Entry.{ga_port}

-- A port number for one socket type, or for stream and datagram.
pub by_number : List AddrInfo → Hints → ℕ → Call (List AddrInfo × ℕ)
by_number ais hints port =
    if hints.socktype == 0
    then (do
      (streams, n) ← ga_port ais port sock_stream
      (both, m) ← ga_port streams port sock_dgram
      pure (both, n + m))
    else ga_port ais port hints.socktype

-- A service name for one protocol, where the socket type allows it.
pub try_name : Resolver → Hints → List ℕ → Protocol → ℕ → List AddrInfo → Call (List AddrInfo × ℕ)
try_name r hints serv proto socktype ais =
    if hints.socktype == 0 || hints.socktype == socktype
    then elim (r.service serv proto) [
      | none ↦ pure (ais, 0)
      | some port ↦ ga_port ais port socktype
    ]
    else pure (ais, 0)

pub by_name : Resolver → List AddrInfo → Hints → List ℕ → Call (List AddrInfo × ℕ)
by_name r ais hints serv = do
  (streams, n) ← try_name r hints serv tcp sock_stream ais
  (both, m) ← try_name r hints serv udp sock_dgram streams
  pure (both, n + m)

-- The list, or the error where no structure took the port.
pub any_found : Hints → List AddrInfo × ℕ → Call (List AddrInfo)
any_found hints (ais, nfound) =
    if nfound == 0
    then (if hints.socktype == 0 then fail eai_noname else fail eai_service)
    else pure ais

unfoldable pub ga_serv : Resolver → List AddrInfo → Hints → List ℕ → Call (List AddrInfo)
unfolding by_number by_name try_name any_found ga_port
ga_serv r ais hints serv = do
  result ←
      if starts_with_digit serv
      then by_number ais hints (htons (atoi_from 0 serv))
      else by_name r ais hints serv
  any_found hints result
