-- ===== src/Gai/Service/Laws.antt =====
-- `ga_serv` for a port number.
use unix_network_programming.Base.{
  ℕ, suc, ◌+◌, ◌*◌, ◌≤◌, ◌<◌, ◌≡◌, refl, ap, List, [], ◌∷◌, map, true, false, Option, none, some,
  ◌==◌, length, All, arith, flatten,
}
use unix_network_programming.Gai.{
  sock_stream, sock_dgram, Hints, AddrInfo, SockAddr, World, done, Resolver, htons, atoi_from,
  starts_with_digit,
}
use unix_network_programming.Gai.Entry.{set_port, assign}
use unix_network_programming.Gai.Entry.Laws.{
  IsFresh, IsTyped, uncloned, spend, ga_port_fresh, ga_port_typed,
}
use unix_network_programming.Gai.Service.{ga_serv}

-- An address for TCP, and a copy for UDP without the flag.
abbrev pub stream_of : ℕ → AddrInfo → AddrInfo
stream_of port ai = record ai { socktype = sock_stream; addr = set_port port ai.addr }

abbrev pub dgram_of : ℕ → AddrInfo → AddrInfo
dgram_of port ai = record ai {
  clone = false;
  socktype = sock_dgram;
  canonname = none;
  addr = set_port port ai.addr;
}

abbrev pub both_types : ℕ → List AddrInfo → List AddrInfo
both_types port [] = []
both_types port (ai ∷ ais) = stream_of port ai ∷ dgram_of port ai ∷ both_types port ais

set_port_twice :
    (port : ℕ) (a : Option SockAddr) → set_port port (set_port port a) ≡ set_port port a
set_port_twice port none = refl
set_port_twice port (some a) = refl

first_pass-IsTyped :
    (port : ℕ) (ais : List AddrInfo)
    → All IsFresh ais
    → All IsTyped (map (assign port sock_stream) ais)
first_pass-IsTyped port [] h = tt
first_pass-IsTyped port (ai ∷ ais) ((c, t, i), h) =
    (rw i (c, refl, i), first_pass-IsTyped port ais h)

length-map : (f : AddrInfo → AddrInfo) (ais : List AddrInfo) → length (map f ais) ≡ length ais
length-map f [] = refl
length-map f (ai ∷ ais) = ap suc (length-map f ais)

two_passes :
    (port : ℕ) (ais : List AddrInfo)
    → All IsFresh ais
    → flatten (
        map
          (λ ai. ai ∷ assign port sock_dgram (uncloned ai) ∷ [])
          (map (assign port sock_stream) ais))
      ≡ both_types port ais
two_passes port [] h = refl
two_passes port (ai ∷ ais) ((c, t, i), h) = rw (i, two_passes port ais h, i, set_port_twice)

both_found : (n : ℕ) → 0 < n → (n + n == 0) ≡ false
both_found n h = ground arith

-- Where the caller names no socket type and there is memory, a port number turns each of the internet
-- addresses that the host loop left, at least one, into two structures, one for stream and one for
-- datagram sockets, in their order.
pub ga_serv-both_types :
    (r : Resolver) (ais : List AddrInfo) (hints : Hints) (serv : List ℕ) (w : World)
    → starts_with_digit serv ≡ true
    → hints.socktype ≡ 0
    → All IsFresh ais
    → 0 < length ais
    → 2 * length ais ≤ w.allocs
    → ga_serv r ais hints serv w
      ≡ done (both_types (htons (atoi_from 0 serv)) ais) (spend (2 * length ais) w)
unfolding ga_serv
ga_serv-both_types r ais hints serv w d t h n m =
    let port = htons (atoi_from 0 serv) in
    let streams = map (assign port sock_stream) ais in
    let same = length-map (assign port sock_stream) ais in
    rw
      (
        d,
        t,
        ga_port_fresh ais port sock_stream w h,
        ga_port_typed streams port sock_dgram w (first_pass-IsTyped port ais h) (rw same m),
        same,
        two_passes port ais h,
        both_found (length ais) n,
      )
      refl
