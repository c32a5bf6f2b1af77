-- ===== src/Connect/Laws.antt =====
-- The descriptors and the addresses of the five functions that make a socket.
use unix_network_programming.Base.{
  ℕ, ◌+◌, ◌≡◌, refl, ap, sym, ◌∙◌, List, [], ◌∷◌, ◌++◌, append_assoc, append-nil, Bool, true, false,
  Option, none, some, ◌==◌, if◌then◌else◌, Bool-cases, ◌⊎◌, inl, inr, arith, then_branch,
}
use unix_network_programming.Gai.{
  AddrInfo, Text, World, Run, done, error, quits, Resolver, sock_stream, sock_dgram, ai_passive,
  af_unspec,
}
use unix_network_programming.Gai.Lookup.{getaddrinfo}
use unix_network_programming.Connect.{
  Kernel, Process, Outcome, returned, exits, breaks, Attempt, usable, useless, ends, called, remove,
  close_socket, on_socket, with_socket, try_connect, try_bind, try_listen, try_socket, try_server,
  after_try, do_while, for_each, hints, tcp_connect, start_listen, tcp_listen, udp_client,
  udp_connect, udp_server,
}

-- A kernel answers socket() for the address with this descriptor, and the call that tells whether
-- the socket can be used (`at` calls later) with success.
abbrev pub Works : Kernel → (ℕ → ℕ → AddrInfo → Bool) → ℕ → ℕ → AddrInfo → ℕ → Type 0
Works k test at n ai fd = (k.socket n ai ≡ some fd) × (test (n + at) fd ai ≡ true)

-- It refuses one of the two; `next` is the number of the call behind these and close().
abbrev pub Fails : Kernel → (ℕ → ℕ → AddrInfo → Bool) → ℕ → ℕ → AddrInfo → ℕ → Type 0
Fails k test at n ai next =
    ((k.socket n ai ≡ none) × (next ≡ n + 1))
    ⊎ ((fd : ℕ) × (k.socket n ai ≡ some fd) × (test (n + at) fd ai ≡ false) × (next ≡ n + at + 2))

abbrev pub AllFail : Kernel → (ℕ → ℕ → AddrInfo → Bool) → ℕ → ℕ → List AddrInfo → ℕ → Type 0
AllFail k test at n [] next = next ≡ n
AllFail k test at n (ai ∷ ais) next =
    (m : ℕ) × Fails k test at n ai m × AllFail k test at m ais next

-- The call that tells: connect, bind, or none.
abbrev pub always : ℕ → ℕ → AddrInfo → Bool
always n fd ai = true

remove_first : (fd : ℕ) (fds : List ℕ) → remove fd (fd ∷ fds) ≡ fds
remove_first fd fds = then_branch {b = fd == fd} _ _ (ground arith)

module _ (k : Kernel) (test : ℕ → ℕ → AddrInfo → Bool) (at : ℕ) where
  -- One address: it is noted, and no more is open than a socket that is usable.
  abbrev Tried : Process → AddrInfo → Attempt → Type 0
  Tried p ai (usable fd q) =
      (q.opened ≡ fd ∷ p.opened) × (q.tried ≡ p.tried ++ ai ∷ []) × Works k test at p.calls ai fd
  Tried p ai (useless q) =
      (q.opened ≡ p.opened) × (q.tried ≡ p.tried ++ ai ∷ []) × Fails k test at p.calls ai q.calls
  Tried p ai (ends q) = Unit

  -- The first address of the list that is usable was taken: all before it failed, and its socket is
  -- the only one that is left open; or all failed, and none is.
  abbrev pub FirstUsable : List AddrInfo → Process → Outcome → Type 0
  FirstUsable ais p (returned fd ai q) =
      (before rest : List AddrInfo) × (m : ℕ) × (ais ≡ before ++ ai ∷ rest)
      × AllFail k test at p.calls before m
      × Works k test at m ai fd
      × (q.tried ≡ p.tried ++ (before ++ ai ∷ []))
      × (q.opened ≡ fd ∷ p.opened)
  FirstUsable ais p (exits q) =
      (m : ℕ) × AllFail k test at p.calls ais m × (q.tried ≡ p.tried ++ ais) × (q.opened ≡ p.opened)
  FirstUsable ais p (breaks q) = Unit

  if_Tried :
      (p : Process) (ai : AddrInfo) (b : Bool) (x y : Attempt)
      → (b ≡ true → Tried p ai x)
      → (b ≡ false → Tried p ai y)
      → Tried p ai (if b then x else y)
  if_Tried p ai true x y h g = h refl
  if_Tried p ai false x y h g = g refl

  -- The call that tells, for a socket of this address.
  tested :
      (fd : ℕ) (p q : Process) (ai : AddrInfo) (b : Bool)
      → test (p.calls + at) fd ai ≡ b
      → k.socket p.calls ai ≡ some fd
      → q.opened ≡ fd ∷ p.opened
      → q.tried ≡ p.tried ++ ai ∷ []
      → q.calls ≡ p.calls + at
      → Tried p ai (if b then usable fd (called q) else close_socket k fd (called q))
  unfolding close_socket
  tested fd p q ai true e s h t n = (h, t, (s, e))
  tested fd p q ai false e s h t n =
      if_Tried p ai (k.close (q.calls + 1) fd) _ _
        (λ c. (ap (remove fd) h ∙ remove_first fd p.opened, t, inr (fd, s, e, omega (arith, n))))
        (λ c. tt)

  with_socket-Tried :
      (ai : AddrInfo) (next : ℕ → Process → Attempt) (p : Process)
      → ((fd : ℕ) (q : Process)
          → k.socket p.calls ai ≡ some fd
          → q.opened ≡ fd ∷ p.opened
          → q.tried ≡ p.tried ++ ai ∷ []
          → q.calls ≡ p.calls + 1
          → Tried p ai (next fd q))
      → Tried p ai (with_socket k ai next p)
  unfolding with_socket on_socket
  with_socket-Tried ai next p h = answered (k.socket p.calls ai) refl
    where
      answered :
          (o : Option ℕ)
          → k.socket p.calls ai ≡ o
          → Tried p ai
              (on_socket o next (record p { calls = p.calls + 1; tried = p.tried ++ ai ∷ [] }))
      answered none e = (refl, refl, inl (e, refl))
      answered (some fd) e = h fd _ e refl refl refl

try_connect-Tried :
    (k : Kernel) (ai : AddrInfo) (p : Process) → Tried k k.connect 1 p ai (try_connect k ai p)
unfolding try_connect
try_connect-Tried k ai p = with_socket-Tried k k.connect 1 ai _ p (λ fd q s h t n.
    tested k k.connect 1 fd p q ai (k.connect q.calls fd ai) (ap (λ m. k.connect m fd ai) (sym n)) s
      h t n)

try_bind-Tried :
    (k : Kernel) (at : ℕ) (ai : AddrInfo) (p : Process) (fd : ℕ) (q : Process)
    → k.socket p.calls ai ≡ some fd
    → q.opened ≡ fd ∷ p.opened
    → q.tried ≡ p.tried ++ ai ∷ []
    → q.calls ≡ p.calls + at
    → Tried k k.bind at p ai (try_bind k ai fd q)
unfolding try_bind
try_bind-Tried k at ai p fd q s h t n =
    tested k k.bind at fd p q ai (k.bind q.calls fd ai) (ap (λ m. k.bind m fd ai) (sym n)) s h t n

try_listen-Tried :
    (k : Kernel) (ai : AddrInfo) (p : Process) → Tried k k.bind 2 p ai (try_listen k ai p)
unfolding try_listen
try_listen-Tried k ai p = with_socket-Tried k k.bind 2 ai _ p (λ fd q s h t n.
    if_Tried k k.bind 2 p ai (k.setsockopt q.calls fd) _ _
      (λ b. try_bind-Tried k 2 ai p fd (called q) s h t (omega (arith, n))) (λ b. tt))

try_socket-Tried :
    (k : Kernel) (ai : AddrInfo) (p : Process) → Tried k always 0 p ai (try_socket k ai p)
unfolding try_socket
try_socket-Tried k ai p = with_socket-Tried k always 0 ai _ p (λ fd q s h t n. (h, t, (s, refl)))

try_server-Tried :
    (k : Kernel) (ai : AddrInfo) (p : Process) → Tried k k.bind 1 p ai (try_server k ai p)
unfolding try_server
try_server-Tried k ai p = with_socket-Tried k k.bind 1 ai _ p (try_bind-Tried k 1 ai p)

module _ (k : Kernel) (test : ℕ → ℕ → AddrInfo → Bool) (at : ℕ) where
  -- One more address that was of no use.
  later :
      (p q : Process) (ai : AddrInfo) (ais : List AddrInfo) (o : Outcome)
      → q.opened ≡ p.opened
      → q.tried ≡ p.tried ++ ai ∷ []
      → Fails k test at p.calls ai q.calls
      → FirstUsable k test at ais q o
      → FirstUsable k test at (ai ∷ ais) p o
  later p q ai ais (returned fd found u) h t w (before, rest, m, e, a, b, f, g) = (
    ai ∷ before,
    rest,
    m,
    ap (λ xs. ai ∷ xs) e,
    (q.calls, w, a),
    b,
    f
        ∙ ap (λ xs. xs ++ (before ++ found ∷ [])) t
        ∙ append_assoc p.tried (ai ∷ []) (before ++ found ∷ []),
    g ∙ ap (λ xs. fd ∷ xs) h,
  )
  later p q ai ais (exits u) h t w (m, a, f, g) =
      (m, (q.calls, w, a), f ∙ ap (λ xs. xs ++ ais) t ∙ append_assoc p.tried (ai ∷ []) ais, g ∙ h)
  later p q ai ais (breaks u) h t w f = tt

  after_try-FirstUsable :
      (p : Process) (ai : AddrInfo) (ais : List AddrInfo) (a : Attempt) (rest : Process → Outcome)
      → Tried k test at p ai a
      → ((q : Process) → FirstUsable k test at ais q (rest q))
      → FirstUsable k test at (ai ∷ ais) p (after_try a ai rest)
  unfolding after_try
  after_try-FirstUsable p ai ais (usable fd q) rest (h, t, w) g =
      ([], ais, p.calls, refl, refl, w, t, h)
  after_try-FirstUsable p ai ais (useless q) rest (h, t, w) g =
      later p q ai ais (rest q) h t w (g q)
  after_try-FirstUsable p ai ais (ends q) rest h g = tt

  do_while-FirstUsable :
      (body : AddrInfo → Process → Attempt) (ais : List AddrInfo) (p : Process)
      → ((ai : AddrInfo) (q : Process) → Tried k test at q ai (body ai q))
      → FirstUsable k test at ais p (do_while body ais p)
  unfolding do_while
  do_while-FirstUsable body [] p h = (p.calls, refl, sym (append-nil p.tried), refl)
  do_while-FirstUsable body (ai ∷ ais) p h =
      after_try-FirstUsable p ai ais (body ai p) (do_while body ais) (h ai p)
        (λ q. do_while-FirstUsable body ais q h)

-- The addresses that getaddrinfo gave, none where it failed.
abbrev pub addresses : Run (List AddrInfo) → List AddrInfo
addresses (done ais w) = ais
addresses (error e w) = []
addresses quits = []

for_each-FirstUsable :
    (k : Kernel) (test : ℕ → ℕ → AddrInfo → Bool) (at : ℕ) (body : AddrInfo → Process → Attempt)
    (run : Run (List AddrInfo)) (p : Process)
    → ((ai : AddrInfo) (q : Process) → Tried k test at q ai (body ai q))
    → FirstUsable k test at (addresses run) p (for_each body run p)
unfolding for_each
for_each-FirstUsable k test at body (done ais w) p h = do_while-FirstUsable k test at body ais p h
for_each-FirstUsable k test at body (error e w) p h =
    (p.calls, refl, sym (append-nil p.tried), refl)
for_each-FirstUsable k test at body quits p h = (p.calls, refl, sym (append-nil p.tried), refl)

module _ (r : Resolver) (w : World) (k : Kernel) (host serv : Text) (p : Process) where
  -- What getaddrinfo gives to the caller.
  abbrev pub asked : ℕ → ℕ → List AddrInfo
  asked flags socktype = addresses (getaddrinfo r host serv (hints flags af_unspec socktype) w)

  start_listen-FirstUsable :
      (ais : List AddrInfo) (o : Outcome)
      → FirstUsable k k.bind 2 ais p o
      → FirstUsable k k.bind 2 ais p (start_listen r w k o)
  unfolding start_listen
  start_listen-FirstUsable ais (exits q) h = h
  start_listen-FirstUsable ais (breaks q) h = h
  start_listen-FirstUsable ais (returned fd ai q) h = elim (Bool-cases (k.listen q.calls fd)) [
    | inl e ↦ rw e h
    | inr e ↦ rw e tt
  ]

  -- Unless a wrapper that it calls ends the process (Close, Setsockopt or Listen), each of the five
  -- functions takes the first address of getaddrinfo for which socket and then connect (in tcp_connect
  -- and udp_connect) or bind (in tcp_listen and udp_server) succeed, in the order of the list, while
  -- one of the two failed for each address before it; it leaves open that socket and no other. Where it
  -- ends because none is left, one of the two has failed for every address, and no socket is left open.
  pub sockets-FirstUsable :
      FirstUsable k k.connect 1 (asked 0 sock_stream) p (tcp_connect r w k host serv p)
      × FirstUsable k k.bind 2 (asked ai_passive sock_stream) p (tcp_listen r w k host serv p)
      × FirstUsable k always 0 (asked 0 sock_dgram) p (udp_client r w k host serv p)
      × FirstUsable k k.connect 1 (asked 0 sock_dgram) p (udp_connect r w k host serv p)
      × FirstUsable k k.bind 1 (asked ai_passive sock_dgram) p (udp_server r w k host serv p)
  unfolding tcp_connect tcp_listen udp_client udp_connect udp_server
  sockets-FirstUsable = (
    for_each-FirstUsable k k.connect 1 (try_connect k) _ p (try_connect-Tried k),
    start_listen-FirstUsable _ _
        (for_each-FirstUsable k k.bind 2 (try_listen k) _ p (try_listen-Tried k)),
    for_each-FirstUsable k always 0 (try_socket k) _ p (try_socket-Tried k),
    for_each-FirstUsable k k.connect 1 (try_connect k) _ p (try_connect-Tried k),
    for_each-FirstUsable k k.bind 1 (try_server k) _ p (try_server-Tried k),
  )
