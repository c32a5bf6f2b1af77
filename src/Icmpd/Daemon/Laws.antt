-- ===== src/Icmpd/Daemon/Laws.antt =====
-- The table of clients over the rounds of the daemon.
use unix_network_programming.Base.{
  ℕ, zero, suc, ◌+◌, refl, List, [], ◌∷◌, Bool, true, false, Option, none, some, leb, if◌then◌else◌,
  ltb, All, replicate, get_elem?,
}
use unix_network_programming.Icmpd.{Client, State, Outcome, goes, exits}
use unix_network_programming.Icmpd.Clients.{readable_listen, readable_conn}
use unix_network_programming.Icmpd.Clients.Laws.{
  IsFree, IsCovered, readable_listen-IsCovered, readable_conn-IsCovered,
}
use unix_network_programming.Icmpd.Errors.{
  Packet, with_reports, reports4, reports6, header_length, readable_v4, readable_v6, is_error4,
  is_error6,
}
use unix_network_programming.Icmpd.Daemon.{
  Fixed, Answers, fd_setsize, initial, unless_done, descriptor_at, check_client, check_clients,
  if_ready, round,
}

abbrev pub OnGoing : Outcome → Type 0
OnGoing (goes s) = IsCovered s
OnGoing (exits s) = Unit

if_OnGoing : (b : Bool) (x y : Outcome) → OnGoing x → OnGoing y → OnGoing (if b then x else y)
if_OnGoing true x y h k = h
if_OnGoing false x y h k = k

readable_v4-OnGoing : (p : Packet) (s : State) → IsCovered s → OnGoing (readable_v4 p s)
unfolding readable_v4
readable_v4-OnGoing p s h =
    let icmp = header_length p.byte 0 in
    let answered =
      if ltb p.size (icmp + (8 + 20 + 8)) then exits s else with_reports (reports4 p s) s in
    let read = if is_error4 (p.byte icmp) then answered else with_reports [] s in
    if_OnGoing (ltb p.size (icmp + 8)) (exits s) read tt (
      if_OnGoing (is_error4 (p.byte icmp)) answered (with_reports [] s)
        (if_OnGoing (ltb p.size (icmp + (8 + 20 + 8))) (exits s) (with_reports (reports4 p s) s) tt
          h)
        h)

readable_v6-OnGoing : (p : Packet) (s : State) → IsCovered s → OnGoing (readable_v6 p s)
unfolding readable_v6
readable_v6-OnGoing p s h =
    let answered = if ltb p.size (8 + 8) then exits s else with_reports (reports6 p s) s in
    let read = if is_error6 (p.byte 0) then answered else with_reports [] s in
    if_OnGoing (ltb p.size 8) (exits s) read tt (
      if_OnGoing (is_error6 (p.byte 0)) answered (with_reports [] s)
        (if_OnGoing (ltb p.size (8 + 8)) (exits s) (with_reports (reports6 p s) s) tt h) h)

unless_done-OnGoing :
    (o : Outcome) (next : State → Outcome)
    → OnGoing o
    → ((t : State) → IsCovered t → OnGoing (next t))
    → OnGoing (unless_done o next)
unless_done-OnGoing (exits s) next h k = tt
unless_done-OnGoing (goes s) next h k = if_OnGoing (leb s.nready 0) _ _ h (k s h)

if_ready-OnGoing :
    (b : Bool) (handler next : State → Outcome) (s : State)
    → IsCovered s
    → ((t : State) → IsCovered t → OnGoing (handler t))
    → ((t : State) → IsCovered t → OnGoing (next t))
    → OnGoing (if_ready b handler s next)
if_ready-OnGoing true handler next s h f k = unless_done-OnGoing (handler s) next (f s h) k
if_ready-OnGoing false handler next s h f k = k s h

check_client-OnGoing :
    (a : Answers) (i : ℕ) (o : Option ℕ) (s : State) (rest : State → Outcome)
    → IsCovered s
    → ((t : State) → IsCovered t → OnGoing (rest t))
    → OnGoing (check_client a i o s rest)
unfolding check_client
check_client-OnGoing a i none s rest h k = k s h
check_client-OnGoing a i (some fd) s rest h k =
    if_OnGoing (a.rset fd) _ _
      (unless_done-OnGoing (goes (readable_conn i fd (a.sent i) (a.socket i) s)) rest
        (readable_conn-IsCovered i fd (a.sent i) (a.socket i) s h) k)
      (k s h)

check_clients-OnGoing :
    (a : Answers) (left i : ℕ) (s : State) → IsCovered s → OnGoing (check_clients a left i s)
unfolding check_clients
check_clients-OnGoing a zero i s h = h
check_clients-OnGoing a (suc left) i s h =
    check_client-OnGoing a i (descriptor_at (get_elem? s.client i)) s _ h
      (λ t g. check_clients-OnGoing a left (i + 1) t g)

round-OnGoing : (f : Fixed) (a : Answers) (s : State) → IsCovered s → OnGoing (round f a s)
unfolding round
round-OnGoing f a s h =
    if_ready-OnGoing (a.rset f.listenfd) (λ s0. goes (readable_listen a.connfd s0)) _
      (record s { nready = a.nready }) h (λ t g. readable_listen-IsCovered a.connfd t g)
      (λ s1 h1. if_ready-OnGoing (a.rset f.fd4) _ _ s1 h1 (readable_v4-OnGoing a.packet4) (λ s2 h2.
        if_ready-OnGoing (a.rset f.fd6) _ _ s2 h2 (readable_v6-OnGoing a.packet6)
          (λ s3 h3. check_clients-OnGoing a s3.used 0 s3 h3)))

-- The daemon, for the answers of as many rounds.
abbrev pub after : Outcome → (State → Outcome) → Outcome
after (exits s) next = exits s
after (goes s) next = next s

abbrev pub rounds : Fixed → List Answers → State → Outcome
rounds f [] s = goes s
rounds f (a ∷ rest) s = after (round f a s) (rounds f rest)

after-OnGoing :
    (o : Outcome) (next : State → Outcome)
    → OnGoing o
    → ((t : State) → IsCovered t → OnGoing (next t))
    → OnGoing (after o next)
after-OnGoing (exits s) next h k = tt
after-OnGoing (goes s) next h k = k s h

replicate-All-IsFree : (n : ℕ) (c : Client) → IsFree c → All IsFree (replicate n c)
replicate-All-IsFree zero c h = tt
replicate-All-IsFree (suc n) c h = (h, replicate-All-IsFree n c h)

initial-IsCovered : (f : Fixed) → IsCovered (initial f)
initial-IsCovered f =
    replicate-All-IsFree fd_setsize (record { connfd = none; family = 0; lport = some 0 }) refl

rounds-OnGoing :
    (f : Fixed) (answers : List Answers) (s : State) → IsCovered s → OnGoing (rounds f answers s)
rounds-OnGoing f [] s h = h
rounds-OnGoing f (a ∷ rest) s h =
    after-OnGoing (round f a s) _ (round-OnGoing f a s h) (rounds-OnGoing f rest)

-- Whatever Select, Accept and the clients answer, no client of the daemon ever stands behind the
-- part of the table that its loops look at.
pub icmpd-OnGoing : (f : Fixed) (answers : List Answers) → OnGoing (rounds f answers (initial f))
icmpd-OnGoing f answers = rounds-OnGoing f answers (initial f) (initial-IsCovered f)
