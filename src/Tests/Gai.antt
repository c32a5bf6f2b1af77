-- ===== src/Tests/Gai.antt =====
-- getaddrinfo of unpv1e3/libgai at concrete hosts and services.
use unix_network_programming.Base.{
  ℕ, ◌+◌, ◌==◌, ◌≡◌, refl, List, [], ◌∷◌, Bool, false, some, none, codes, length, arith,
  if◌then◌else◌,
}
use unix_network_programming.Gai.{
  af_unspec, af_inet, af_local, sock_stream, Hints, AddrInfo, World, Run, done, error, quits,
  Resolver, Protocol, host_found, host_error,
}
use unix_network_programming.Gai.Outcome.{Ensures}
use unix_network_programming.Gai.Check.{ga_echeck}
use unix_network_programming.Gai.Search.{ga_nsearch}
use unix_network_programming.Gai.Entry.{ga_aistruct, blank, with_addr, sockaddr_in_size}
use unix_network_programming.Gai.Entry.Laws.{spend}
use unix_network_programming.Gai.Service.{ga_serv}
use unix_network_programming.Gai.Service.Laws.{both_types, ga_serv-both_types}
use unix_network_programming.Gai.Service.Families.{AllOf}
use unix_network_programming.Gai.Unix.{ga_unix}
use unix_network_programming.Gai.Lookup.{getaddrinfo}
use unix_network_programming.Gai.Lookup.Families.{getaddrinfo_families}

abbrev first_is : ℕ → List ℕ → Bool
first_is b [] = false
first_is b (c ∷ cs) = b == c

-- A resolver that knows 1.2.3.4, the host h, and the service s for TCP.
abbrev pub resolver : Resolver
resolver = record {
  pton4 = λ s. if first_is b'1' s then some (1 ∷ 2 ∷ 3 ∷ 4 ∷ []) else none;
  pton6 = λ s. none;
  gethost = λ s f.
      if first_is b'h' s
      then host_found (record {
        name = codes "h.org";
        addrtype = af_inet;
        addr_list = (5 ∷ []) ∷ (6 ∷ []) ∷ [];
      })
      else host_error 1;
  service = λ s p. elim p [ Protocol.tcp ↦ some 80 | Protocol.udp ↦ none ];
  nodename = some (codes "me");
}

abbrev hints_for : ℕ → ℕ → Hints
hints_for family socktype = record { flags = 0; family = family; socktype = socktype; protocol = 0 }

abbrev pub world : World
world = record { allocs = 20; unlinked = [] }

-- The number of structures.
abbrev count : Run (List AddrInfo) → ℕ
count (done ais w) = length ais
count (error e w) = 100 + e
count quits = 200

named :
    count (getaddrinfo resolver (some (codes "h")) (some (codes "s")) (hints_for af_inet 0) world)
    ≡ 2
unfolding getaddrinfo ga_unix ga_nsearch ga_aistruct ga_serv
named = refl

named_number :
    count (getaddrinfo resolver (some (codes "h")) (some (codes "80")) (hints_for af_inet 0) world)
    ≡ 4
unfolding getaddrinfo ga_unix ga_nsearch ga_aistruct ga_serv
named_number = refl

unknown : count (getaddrinfo resolver (some (codes "x")) none (hints_for af_inet 0) world) ≡ 108
unfolding getaddrinfo ga_unix ga_nsearch ga_aistruct ga_serv
unknown = refl

paths :
    count (
      getaddrinfo resolver
        (some (codes "/local"))
        (some (codes "/tmp/s"))
        (hints_for af_unspec 0)
        world)
    ≡ 2
unfolding getaddrinfo ga_unix ga_nsearch ga_aistruct ga_serv
paths = refl

getaddrinfo_families_example :
    Ensures
      (AllOf af_inet)
      (getaddrinfo resolver (some (codes "h")) (some (codes "80")) (hints_for af_inet 0) world)
getaddrinfo_families_example =
    getaddrinfo_families resolver (some (codes "h")) (some (codes "80")) (hints_for af_inet 0) world

echeck_local : ga_echeck (some (codes "h")) none 0 af_local sock_stream ≡ 0
unfolding ga_echeck
echeck_local = refl

abbrev two_addresses : List AddrInfo
two_addresses =
    with_addr af_inet (5 ∷ []) sockaddr_in_size (blank (hints_for af_inet 0) af_inet)
    ∷ with_addr af_inet (6 ∷ []) sockaddr_in_size (blank (hints_for af_inet 0) af_inet)
    ∷ []

ga_serv-both_types_example :
    ga_serv resolver two_addresses (hints_for af_inet 0) (codes "80") world
    ≡ done (both_types 20480 two_addresses) (spend 4 world)
ga_serv-both_types_example =
    ga_serv-both_types resolver two_addresses (hints_for af_inet 0) (codes "80") world refl refl
      ((refl, refl, refl), ((refl, refl, refl), tt)) (omega arith) (omega arith)
