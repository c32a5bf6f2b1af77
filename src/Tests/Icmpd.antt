-- ===== src/Tests/Icmpd.antt =====
-- The daemon of Icmpd with a client on port 9: a datagram from that port was not delivered.
use unix_network_programming.Base.{
  ℕ, ◌≡◌, refl, List, [], ◌∷◌, Bool, true, false, some, none, ◌==◌, ◌||◌, if◌then◌else◌, arith,
}
use unix_network_programming.Gai.{af_inet}
use unix_network_programming.Icmpd.{
  Client, Effect, tell, report, close, State, Outcome, goes, exits,
}
use unix_network_programming.Icmpd.Clients.{readable_conn, readable_listen}
use unix_network_programming.Icmpd.Errors.{Packet, error4, readable_v4, with_reports}
use unix_network_programming.Icmpd.Errors.Laws.{tell_all, readable_v4_tells}
use unix_network_programming.Icmpd.Daemon.{Fixed, Answers, initial, round}
use unix_network_programming.Icmpd.Daemon.Laws.{OnGoing, rounds, icmpd-OnGoing}

abbrev fixed : Fixed
fixed = record { fd4 = 3; fd6 = 4; listenfd = 5 }

-- IP header, ICMP port unreachable, the IP header and the UDP header of the datagram: 48 bytes.
abbrev unreachable : ℕ → ℕ
unreachable n =
    if n == 0 || n == 28
    then 69
    else if n == 20 || n == 21
    then 3
    else if n == 37
    then 17
    else if n == 48
    then 9
    else if n == 50
    then 7
    else 0

abbrev packet : ℕ → Packet
packet size = record { size = size; byte = unreachable }

-- The client 6 comes, and then gives its socket 7, while the packet arrives behind it.
abbrev arrives : Answers
arrives = record {
  rset = λ fd. fd == 5;
  nready = 1;
  connfd = 6;
  packet4 = packet 0;
  packet6 = packet 0;
  sent = λ i. record { has_data = true; recvfd = some 7 };
  socket = λ i. record { name = some (af_inet, some 9); bound = none };
}

abbrev gives : Answers
gives = record arrives { rset = λ fd. fd == 6 }

abbrev fails : Answers
fails = record arrives { rset = λ fd. fd == 3; packet4 = packet 56 }

abbrev effects_of : Outcome → List Effect × Bool
effects_of (goes s) = (s.effects, true)
effects_of (exits s) = (s.effects, false)

told :
    effects_of (rounds fixed (arrives ∷ gives ∷ fails ∷ []) (initial fixed))
    ≡ (tell 6 true ∷ close 7 ∷ report 6 (error4 unreachable 20 28 48) ∷ [], true)
unfolding round readable_v4 readable_conn readable_listen
told = refl

abbrev registered_client : Client
registered_client = record { connfd = some 6; family = af_inet; lport = some 9 }

abbrev left_client : Client
left_client = record { connfd = none; family = af_inet; lport = some 9 }

abbrev one_client : State
one_client = record {
  client = registered_client ∷ left_client ∷ [];
  used = 1;
  allset = λ fd. fd == 6;
  maxfd = 6;
  nready = 1;
  effects = [];
}

-- A packet of three bytes ends the daemon.
short : effects_of (readable_v4 (packet 3) one_client) ≡ ([], false)
unfolding readable_v4
short = refl

readable_v4_tells_example :
    readable_v4 (packet 56) one_client
    ≡ with_reports (tell_all (error4 unreachable 20 28 48) (6 ∷ [])) one_client
readable_v4_tells_example =
    readable_v4_tells (packet 56) one_client (refl, tt) (omega arith) refl refl

icmpd-OnGoing_example : OnGoing (rounds fixed (arrives ∷ gives ∷ fails ∷ []) (initial fixed))
icmpd-OnGoing_example = icmpd-OnGoing fixed (arrives ∷ gives ∷ fails ∷ [])
