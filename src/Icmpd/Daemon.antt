-- ===== src/Icmpd/Daemon.antt =====
-- The loop of unpv1e3/icmpd/icmpd.c.
pub mod Laws
use unix_network_programming.Base.{
  ℕ, zero, suc, ◌+◌, List, [], ◌∷◌, Bool, true, false, Option, none, some, ◌==◌, leb, if◌then◌else◌,
  get_elem?, replicate,
}
use unix_network_programming.Icmpd.{Client, State, Outcome, goes, exits, larger, with_fd}
use unix_network_programming.Icmpd.Clients.{Sent, Socket, readable_listen, readable_conn}
use unix_network_programming.Icmpd.Errors.{Packet, readable_v4, readable_v6}

-- The three descriptors that are always looked at.
pub record Fixed : Type 0 where
  pub fd4 : ℕ
  pub fd6 : ℕ
  pub listenfd : ℕ

-- What the system answers in a round: rset and nready from Select, the descriptor of Accept, the
-- packets, and for each client what it sends and what its socket is.
pub record Answers : Type 0 where
  pub rset : ℕ → Bool
  pub nready : ℕ
  pub connfd : ℕ
  pub packet4 : Packet
  pub packet6 : Packet
  pub sent : ℕ → Sent
  pub socket : ℕ → Socket

-- FD_SETSIZE
abbrev pub fd_setsize : ℕ
fd_setsize = 1024

-- The array is static, so its families and ports are 0.
abbrev pub initial : Fixed → State
initial f = record {
  client = replicate fd_setsize (record { connfd = none; family = 0; lport = some 0 });
  used = 0;
  allset = with_fd f.listenfd (with_fd f.fd6 (λ fd. fd == f.fd4));
  maxfd = larger (larger f.fd4 f.fd6) f.listenfd;
  nready = 0;
  effects = [];
}

-- `continue` where a handler returns 0, and the rest of the round.
abbrev pub unless_done : Outcome → (State → Outcome) → Outcome
unless_done (exits s) next = exits s
unless_done (goes s) next = if leb s.nready 0 then goes s else next s

-- The client at a place, if there is one.
abbrev pub descriptor_at : Option Client → Option ℕ
descriptor_at none = none
descriptor_at (some c) = c.connfd

-- The body of the loop over the clients, given the rest of it.
pub check_client : Answers → ℕ → Option ℕ → State → (State → Outcome) → Outcome
check_client a i none s rest = rest s
check_client a i (some fd) s rest =
    if a.rset fd
    then unless_done (goes (readable_conn i fd (a.sent i) (a.socket i) s)) rest
    else rest s

-- From the place `i` on.
pub check_clients : Answers → ℕ → ℕ → State → Outcome
unfolding check_client
check_clients a zero i s = goes s
check_clients a (suc left) i s =
    check_client a i (descriptor_at (get_elem? s.client i)) s (check_clients a left (i + 1))

abbrev pub if_ready : Bool → (State → Outcome) → State → (State → Outcome) → Outcome
if_ready true handler s next = unless_done (handler s) next
if_ready false handler s next = next s

unfoldable pub round : Fixed → Answers → State → Outcome
unfolding check_clients check_client
round f a s =
    if_ready (a.rset f.listenfd) (λ s0. goes (readable_listen a.connfd s0))
      (record s { nready = a.nready })
      (λ s1. if_ready (a.rset f.fd4) (readable_v4 a.packet4) s1 (λ s2.
        if_ready (a.rset f.fd6) (readable_v6 a.packet6) s2 (λ s3. check_clients a s3.used 0 s3)))
