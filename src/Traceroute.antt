-- ===== src/Traceroute.antt =====
-- unpv1e3/traceroute: recv_v4.c, which waits for the answer to a probe, sig_alrm.c and traceloop.c.
pub mod Laws
pub mod Loop
use unix_network_programming.Base.{
  ℕ, zero, suc, ◌+◌, ◌*◌, ◌%◌, ◌^◌, List, [], ◌∷◌, ◌++◌, Bool, true, false, ◌&&◌, Option, none,
  some, ◌==◌, ltb, if◌then◌else◌,
}
use unix_network_programming.Icmpd.Errors.{Packet, udp_protocol, header_length}

-- What recv_v4 returns: -3, -2, -1, and another code of an unreachable message.
pub data Code : Type 0 where
  timed_out : Code
  in_transit : Code
  at_destination : Code
  unreachable : ℕ → Code

-- sport and dport.
pub record Ports : Type 0 where
  pub sport : ℕ
  pub dport : ℕ

-- A 16-bit field in network byte order.
abbrev pub net16 : (ℕ → ℕ) → ℕ → ℕ
net16 byte at = byte at * 256 + byte (at + 1)

-- Whether the datagram with the IP header at `hip` and the UDP header at `udp` is the probe.
abbrev pub is_probe : Ports → ℕ → (ℕ → ℕ) → ℕ → ℕ → Bool
is_probe ports seq byte hip udp =
    byte (hip + 9) == udp_protocol
    && (net16 byte udp == ports.sport && net16 byte (udp + 2) == (ports.dport + seq) % 2 ^ 16)

-- The branch of an ICMP error that would be answered by `code`.
abbrev pub about_probe : Ports → ℕ → Packet → Code → Option Code
about_probe ports seq p code =
    let icmp = header_length p.byte 0 in
    let hip = icmp + 8 in
    let hlen2 = header_length p.byte hip in
    if ltb p.size (icmp + (8 + 20))
    then none
    else if ltb p.size (icmp + (8 + hlen2 + 4))
    then none
    else if is_probe ports seq p.byte hip (hip + hlen2)
    then some code
    else none

abbrev pub unreachable_code : ℕ → Code
unreachable_code icmp_code = if icmp_code == 3 then at_destination else unreachable icmp_code

-- One round of the loop of recv_v4 with a packet: `none` is that it goes on.
unfoldable pub answer : Ports → ℕ → Packet → Option Code
answer ports seq p =
    let icmp = header_length p.byte 0 in
    if ltb p.size (icmp + 8)
    then none
    else if p.byte icmp == 11 && p.byte (icmp + 1) == 0
    then about_probe ports seq p in_transit
    else if p.byte icmp == 3
    then about_probe ports seq p (unreachable_code (p.byte (icmp + 1)))
    else none

-- What happens to the process while it waits. The alarm rings in recvfrom, or late: before recvfrom is
-- called and behind the test of gotalarm.
pub data Arrival : Type 0 where
  alarm_rings : Arrival
  late_alarm : Arrival
  interrupted : Arrival
  failed : Arrival
  packet : Packet → Arrival

-- The end of a call, with what is still to arrive; err_sys; or a call that does not end.
pub data Outcome : Type 0 where
  returned : Code → List Arrival → Outcome
  exits : Outcome
  waits : Outcome

-- The test of gotalarm at the head of the loop.
abbrev pub test_alarm : Bool → List Arrival → Outcome → Outcome
test_alarm gotalarm es next = if gotalarm then returned timed_out es else next

abbrev pub on_answer : Option Code → Bool → List Arrival → Outcome → Outcome
on_answer none gotalarm es next = test_alarm gotalarm es next
on_answer (some code) gotalarm es next = returned code es

-- recvfrom in the loop.
unfoldable pub wait : Ports → ℕ → Bool → List Arrival → Outcome
unfolding answer
wait ports seq gotalarm [] = waits
wait ports seq gotalarm (alarm_rings ∷ es) = returned timed_out es
wait ports seq gotalarm (late_alarm ∷ es) = wait ports seq true es
wait ports seq gotalarm (interrupted ∷ es) = test_alarm gotalarm es (wait ports seq gotalarm es)
wait ports seq gotalarm (failed ∷ es) = exits
wait ports seq gotalarm (packet p ∷ es) =
    on_answer (answer ports seq p) gotalarm es (wait ports seq gotalarm es)

unfoldable pub recv_v4 : Ports → ℕ → List Arrival → Outcome
unfolding wait
recv_v4 ports seq es = wait ports seq false es

-- A datagram that traceloop sends: rec_seq, rec_ttl and the port.
pub record Probe : Type 0 where
  pub rec_seq : ℕ
  pub rec_ttl : ℕ
  pub port : ℕ

-- The variables of traceloop, the datagrams sent, what recv_v4 returned, and what is still to arrive.
pub record Trace : Type 0 where
  pub seq : ℕ
  pub done : ℕ
  pub sent : List Probe
  pub codes : List Code
  pub arrivals : List Arrival

pub data Run : Type 0 where
  goes : Trace → Run
  stops : Trace → Run

abbrev pub bind : Run → (Trace → Run) → Run
bind (goes t) f = f t
bind (stops t) f = stops t

abbrev pub probe_of : Ports → ℕ → ℕ → Probe
probe_of ports seq ttl = record {
  rec_seq = seq % 2 ^ 16;
  rec_ttl = ttl % 2 ^ 16;
  port = (ports.dport + seq) % 2 ^ 16;
}

abbrev pub send_probe : Ports → ℕ → Trace → Trace
send_probe ports ttl t = record t {
  seq = t.seq + 1;
  sent = t.sent ++ probe_of ports (t.seq + 1) ttl ∷ [];
}

-- 1 for a port that is unreachable.
abbrev pub arrived : Code → ℕ
arrived timed_out = 0
arrived in_transit = 0
arrived at_destination = 1
arrived (unreachable n) = 0

abbrev pub on_code : Outcome → Trace → Run
on_code (returned code es) t =
    goes (record t { done = t.done + arrived code; codes = t.codes ++ code ∷ []; arrivals = es })
on_code exits t = stops t
on_code waits t = stops t

-- The loop over `probe`.
unfoldable pub send_probes : Ports → ℕ → ℕ → Trace → Run
unfolding recv_v4
send_probes ports zero ttl t = goes t
send_probes ports (suc left) ttl t =
    let t1 = send_probe ports ttl t in
    bind (on_code (recv_v4 ports t1.seq t1.arrivals) t1) (send_probes ports left ttl)

-- The loop over `ttl`, of which `left` values are left.
unfoldable pub ttl_loop : Ports → ℕ → ℕ → ℕ → Trace → Run
unfolding send_probes
ttl_loop ports nprobes zero ttl t = goes t
ttl_loop ports nprobes (suc left) ttl t =
    let next = bind (send_probes ports nprobes ttl t) (ttl_loop ports nprobes left (ttl + 1)) in
    if t.done == 0 then next else goes t

abbrev pub start : List Arrival → Trace
start es = record { seq = 0; done = 0; sent = []; codes = []; arrivals = es }

unfoldable pub traceloop : Ports → ℕ → ℕ → List Arrival → Run
unfolding ttl_loop
traceloop ports nprobes max_ttl es = ttl_loop ports nprobes max_ttl 1 (start es)
