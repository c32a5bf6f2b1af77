-- ===== src/Tests/Traceroute.antt =====
-- Traceroute to a host that answers the second probe.
use unix_network_programming.Base.{
  ℕ, ◌≡◌, refl, List, [], ◌∷◌, inr, inl, ◌==◌, if◌then◌else◌, arith,
}
use unix_network_programming.Icmpd.Errors.{Packet}
use unix_network_programming.Traceroute.{
  Code, timed_out, at_destination, Ports, Arrival, alarm_rings, interrupted, packet, returned,
  recv_v4, Run, goes, stops, traceloop, start,
}
use unix_network_programming.Traceroute.Laws.{IsAnswer, recv_v4_first}
use unix_network_programming.Traceroute.Loop.{On, Traced, traceloop-Traced}

abbrev ports : Ports
ports = record { sport = 33000; dport = 33434 }

-- Headers of 20 bytes: port unreachable, about the datagram from 33000 to 33436.
abbrev byte : ℕ → ℕ
byte i =
    if i == 0
    then 69
    else if i == 20
    then 3
    else if i == 21
    then 3
    else if i == 28
    then 69
    else if i == 37
    then 17
    else if i == 48
    then 128
    else if i == 49
    then 232
    else if i == 50
    then 130
    else if i == 51
    then 156
    else 0

abbrev unreached : Packet
unreached = record { size = 56; byte = byte }

abbrev es : List Arrival
es = alarm_rings ∷ packet unreached ∷ []

abbrev codes : Run → List Code
codes (goes t) = t.codes
codes (stops t) = []

hops : codes (traceloop ports 1 30 es) ≡ timed_out ∷ at_destination ∷ []
unfolding traceloop
hops = refl

-- The late answer to the first probe.
abbrev late : Packet
late = record { size = 56; byte = λ i. if i == 51 then 155 else byte i }

late_other : ¬ IsAnswer ports 2 late
late_other ((l, m, u, v, w), r) = omega (arith, w)

recv_v4_first_example :
    (recv_v4 ports 2 (interrupted ∷ packet late ∷ packet unreached ∷ [])
      ≡ returned at_destination [])
    × (recv_v4 ports 2 (interrupted ∷ packet late ∷ alarm_rings ∷ packet unreached ∷ [])
        ≡ returned timed_out (packet unreached ∷ []))
recv_v4_first_example =
    recv_v4_first ports 2 (interrupted ∷ packet late ∷ []) [] unreached at_destination
      (tt, (late_other, tt)) (omega arith, omega arith, refl, refl, refl)
      (inr (inl (refl, refl, refl)))

traceloop-Traced_example : On (Traced ports 1 30 1 (start es)) (traceloop ports 1 30 es)
traceloop-Traced_example = traceloop-Traced ports 1 30 es
