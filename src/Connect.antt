-- ===== src/Connect.antt =====
-- tcp_connect, tcp_listen, udp_client, udp_connect, udp_server and host_serv of unpv1e3/lib: a socket
-- for the first of the addresses of getaddrinfo that can be used.
pub mod Laws
use unix_network_programming.Base.{
  ℕ, ◌+◌, List, [], ◌∷◌, ◌++◌, Bool, true, false, Option, none, some, ◌==◌, if◌then◌else◌,
}
use unix_network_programming.Gai.{
  af_unspec, sock_stream, sock_dgram, ai_passive, ai_canonname, Text, Hints, AddrInfo, World, Run,
  done, error, quits, Resolver,
}
use unix_network_programming.Gai.Lookup.{getaddrinfo}

-- What the kernel answers, by the number of the call: the descriptor of socket, and whether the other
-- calls succeed.
pub record Kernel : Type 0 where
  pub socket : ℕ → AddrInfo → Option ℕ
  pub connect : ℕ → ℕ → AddrInfo → Bool
  pub bind : ℕ → ℕ → AddrInfo → Bool
  pub setsockopt : ℕ → ℕ → Bool
  pub listen : ℕ → ℕ → Bool
  pub close : ℕ → ℕ → Bool

-- The descriptors that are open, the number of calls so far, and the addresses that were tried.
pub record Process : Type 0 where
  pub opened : List ℕ
  pub calls : ℕ
  pub tried : List AddrInfo

-- The descriptor and the address; the end by err_quit or err_sys in the function itself; or the end
-- in a wrapper that it calls.
pub data Outcome : Type 0 where
  returned : ℕ → AddrInfo → Process → Outcome
  exits breaks : Process → Outcome

-- What one address comes to: `break`, `continue`, or the end of the process in a wrapper.
pub data Attempt : Type 0 where
  usable : ℕ → Process → Attempt
  useless : Process → Attempt
  ends : Process → Attempt

abbrev pub called : Process → Process
called p = record p { calls = p.calls + 1 }

-- A descriptor is taken from the list where it stands first.
abbrev pub remove : ℕ → List ℕ → List ℕ
remove fd [] = []
remove fd (other ∷ fds) = let rest = remove fd fds in if other == fd then fds else other ∷ rest

-- Close, which ends the process where close fails.
pub close_socket : Kernel → ℕ → Process → Attempt
close_socket k fd p =
    let closed = record p { opened = remove fd p.opened; calls = p.calls + 1 } in
    if k.close p.calls fd then useless closed else ends p

-- What follows socket().
pub on_socket : Option ℕ → (ℕ → Process → Attempt) → Process → Attempt
on_socket none next p = useless p
on_socket (some fd) next p = next fd (record p { opened = fd ∷ p.opened })

pub with_socket : Kernel → AddrInfo → (ℕ → Process → Attempt) → Process → Attempt
unfolding on_socket
with_socket k ai next p =
    on_socket (k.socket p.calls ai) next
      (record p { calls = p.calls + 1; tried = p.tried ++ ai ∷ [] })

-- The bodies of the five loops.
pub try_connect : Kernel → AddrInfo → Process → Attempt
try_connect k ai =
    with_socket k ai (λ fd p.
      if k.connect p.calls fd ai then usable fd (called p) else close_socket k fd (called p))

pub try_bind : Kernel → AddrInfo → ℕ → Process → Attempt
try_bind k ai fd p =
    if k.bind p.calls fd ai then usable fd (called p) else close_socket k fd (called p)

pub try_listen : Kernel → AddrInfo → Process → Attempt
try_listen k ai =
    with_socket k ai
      (λ fd p. if k.setsockopt p.calls fd then try_bind k ai fd (called p) else ends (called p))

pub try_socket : Kernel → AddrInfo → Process → Attempt
try_socket k ai = with_socket k ai usable

pub try_server : Kernel → AddrInfo → Process → Attempt
try_server k ai = with_socket k ai (try_bind k ai)

-- What follows the body of a loop.
pub after_try : Attempt → AddrInfo → (Process → Outcome) → Outcome
after_try (usable fd p) ai rest = returned fd ai p
after_try (useless p) ai rest = rest p
after_try (ends p) ai rest = breaks p

-- do { … } while ((res = res->ai_next) != NULL), and err_sys where no address is left.
pub do_while : (AddrInfo → Process → Attempt) → List AddrInfo → Process → Outcome
unfolding after_try
do_while body [] p = exits p
do_while body (ai ∷ ais) p = after_try (body ai p) ai (do_while body ais)

-- err_quit where getaddrinfo fails.
pub for_each : (AddrInfo → Process → Attempt) → Run (List AddrInfo) → Process → Outcome
for_each body (done ais w) p = do_while body ais p
for_each body (error e w) p = exits p
for_each body quits p = exits p

abbrev pub hints : ℕ → ℕ → ℕ → Hints
hints flags family socktype = record {
  flags = flags;
  family = family;
  socktype = socktype;
  protocol = 0;
}

module _ (r : Resolver) (w : World) (k : Kernel) where
  unfoldable pub tcp_connect : Text → Text → Process → Outcome
  unfolding for_each do_while try_connect with_socket close_socket
  tcp_connect host serv =
      for_each (try_connect k) (getaddrinfo r host serv (hints 0 af_unspec sock_stream) w)

  -- Listen, which ends the process where listen fails.
  pub start_listen : Outcome → Outcome
  start_listen (exits p) = exits p
  start_listen (breaks p) = breaks p
  start_listen (returned fd ai p) =
      if k.listen p.calls fd then returned fd ai (called p) else breaks p

  unfoldable pub tcp_listen : Text → Text → Process → Outcome
  unfolding for_each do_while try_listen try_bind with_socket close_socket start_listen
  tcp_listen host serv p = start_listen (
      for_each (try_listen k) (getaddrinfo r host serv (hints ai_passive af_unspec sock_stream) w)
        p)

  unfoldable pub udp_client : Text → Text → Process → Outcome
  unfolding for_each do_while try_socket with_socket
  udp_client host serv =
      for_each (try_socket k) (getaddrinfo r host serv (hints 0 af_unspec sock_dgram) w)

  unfoldable pub udp_connect : Text → Text → Process → Outcome
  unfolding for_each do_while try_connect with_socket close_socket
  udp_connect host serv =
      for_each (try_connect k) (getaddrinfo r host serv (hints 0 af_unspec sock_dgram) w)

  unfoldable pub udp_server : Text → Text → Process → Outcome
  unfolding for_each do_while try_server try_bind with_socket close_socket
  udp_server host serv =
      for_each (try_server k) (getaddrinfo r host serv (hints ai_passive af_unspec sock_dgram) w)

-- `none` is NULL, and the end of the process in Host_serv.
abbrev pub or_null : Run (List AddrInfo) → Option (List AddrInfo)
or_null (done ais w) = some ais
or_null (error e w) = none
or_null quits = none

unfoldable pub host_serv : Resolver → World → Text → Text → ℕ → ℕ → Option (List AddrInfo)
host_serv r w host serv family socktype =
    or_null (getaddrinfo r host serv (hints ai_canonname family socktype) w)
