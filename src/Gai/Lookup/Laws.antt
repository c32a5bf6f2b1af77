-- ===== src/Gai/Lookup/Laws.antt =====
-- `getaddrinfo` for a numeric host, and for the local family.
use unix_network_programming.Base.{
  ℕ, ◌≡◌, ◌≤◌, refl, List, [], ◌∷◌, true, false, ◌&&◌, none, some, arith,
}
use unix_network_programming.Gai.{
  af_inet, af_local, Text, Hints, AddrInfo, World, done, quits, Resolver, is_digit, sock_raw, alloc,
}
use unix_network_programming.Gai.Check.{ga_echeck}
use unix_network_programming.Gai.Search.{entry, ga_nsearch}
use unix_network_programming.Gai.Search.Laws.{ga_nsearch_quits}
use unix_network_programming.Gai.Entry.{ga_aistruct, with_addr, blank, sockaddr_in_size}
use unix_network_programming.Gai.Entry.Laws.{spend}
use unix_network_programming.Gai.Lookup.{
  internet, numeric4, search_hosts, search_host, search_as, use_numeric, finish, return_canon,
  with_service, is_unix_host, is_path, getaddrinfo,
}

-- A lookup in the local family that ga_echeck accepts ends the process, but for a path behind the host
-- /local or /unix.
pub getaddrinfo_quits :
    (r : Resolver) (hostname servname : Text) (hints : Hints) (w : World)
    → ga_echeck hostname servname hints.flags hints.family hints.socktype ≡ 0
    → hints.family ≡ af_local
    → (is_unix_host hostname && is_path servname) ≡ false
    → getaddrinfo r hostname servname hints w ≡ quits
unfolding getaddrinfo internet
getaddrinfo_quits r hostname servname hints w e f u =
    rw
      (
        e,
        u,
        ga_nsearch_quits hostname hints w (rw f (ground arith)) (rw f (ground arith))
            (rw f (ground arith)),
      )
      refl

digit_not_slash : (c : ℕ) (cs : List ℕ) → is_digit c ≡ true → is_unix_host (some (c ∷ cs)) ≡ false
digit_not_slash c cs h = ground arith

accepted :
    (c : ℕ) (cs : List ℕ) (hints : Hints)
    → hints.flags ≡ 0
    → hints.family ≡ af_inet
    → hints.socktype ≤ sock_raw
    → ga_echeck (some (c ∷ cs)) none hints.flags hints.family hints.socktype ≡ 0
unfolding ga_echeck
accepted c cs hints g f t = rw (g, f) (ground arith)

numeric_entry :
    (hints : Hints) (bytes : List ℕ) (w : World)
    → 2 ≤ w.allocs
    → ga_aistruct hints bytes af_inet w
      ≡ done (with_addr af_inet bytes sockaddr_in_size (blank hints af_inet)) (spend 2 w)
unfolding ga_aistruct alloc
numeric_entry hints bytes w m = ground arith

abbrev only_entry : Hints → List ℕ → AddrInfo
only_entry hints bytes = with_addr af_inet bytes sockaddr_in_size (blank hints af_inet)

one_search :
    (c : ℕ) (cs : List ℕ) (hints : Hints) (w : World)
    → hints.family ≡ af_inet
    → ga_nsearch (some (c ∷ cs)) hints w ≡ done (entry (c ∷ cs) af_inet ∷ []) w
unfolding ga_nsearch
one_search c cs hints w f = rw f refl

reads_numeric :
    (r : Resolver) (c : ℕ) (cs bytes : List ℕ)
    → is_digit c ≡ true
    → r.pton4 (c ∷ cs) ≡ some bytes
    → numeric4 r (c ∷ cs) ≡ some bytes
unfolding numeric4
reads_numeric r c cs bytes d p = rw d p

one_round :
    (r : Resolver) (c : ℕ) (cs bytes : List ℕ) (hints : Hints) (w : World)
    → numeric4 r (c ∷ cs) ≡ some bytes
    → hints.family ≡ af_inet
    → 2 ≤ w.allocs
    → search_hosts r (some (c ∷ cs)) hints false (entry (c ∷ cs) af_inet ∷ []) none w
      ≡ done (only_entry hints bytes ∷ [], none) (spend 2 w)
unfolding search_hosts search_host search_as use_numeric ga_aistruct
one_round r c cs bytes hints w e f m = rw (e, f, numeric_entry hints bytes w m) refl

-- A host that begins with a digit and is an IPv4 address, looked up for IPv4 and a known socket type,
-- without flags and without a service, gives exactly one structure with its address, where two more
-- allocations succeed.
pub getaddrinfo_numeric :
    (r : Resolver) (c : ℕ) (cs bytes : List ℕ) (hints : Hints) (w : World)
    → is_digit c ≡ true
    → r.pton4 (c ∷ cs) ≡ some bytes
    → hints.flags ≡ 0
    → hints.family ≡ af_inet
    → hints.socktype ≤ sock_raw
    → 2 ≤ w.allocs
    → getaddrinfo r (some (c ∷ cs)) none hints w
      ≡ done (with_addr af_inet bytes sockaddr_in_size (blank hints af_inet) ∷ []) (spend 2 w)
unfolding getaddrinfo internet finish return_canon with_service
getaddrinfo_numeric r c cs bytes hints w d p g f t m =
    rw
      (
        accepted c cs hints g f t,
        digit_not_slash c cs d,
        internet,
        one_search c cs hints w f,
        one_round r c cs bytes hints w (reads_numeric r c cs bytes d p) f m,
        g,
      )
      refl
