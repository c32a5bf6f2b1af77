-- ===== src/Tests/Rtt.antt =====
-- The timer, and a request with one alarm, on numbers in thousandths.
use unix_network_programming.Base.{
  ℕ, suc, ◌+◌, ◌-◌, ◌*◌, ◌/◌, ◌≡◌, refl, List, [], ◌∷◌, ◌++◌, false, ltb, codes, take, arith,
}
use unix_network_programming.Rtt.{
  Floats, Timeval, rtt_maxnrexmt, rtt_minmax, rtt_init, rtt_ts, rtt_newpack, rtt_start, rtt_stop,
  rtt_timeout,
}
use unix_network_programming.Rtt.SendRecv.{
  Event, alarm_rings, short, message, Caller, Result, reply, gave_up, dg_send_recv,
}
use unix_network_programming.Rtt.SendRecv.Laws.{
  Requests, dg_send_recv_replies, dg_send_recv_gives_up,
}

abbrev fixed : Floats ℕ
fixed = record {
  literal = λ n d. n * 1000 / d;
  float = λ f. f;
  of_int = λ n. n * 1000;
  to_int = λ f. f / 1000;
  add = λ a b. a + b;
  sub = λ a b. a - b;
  mul = λ a b. a * b / 1000;
  div = λ a b. a * 1000 / b;
  neg = λ a. 0;
  less = ltb;
}

abbrev clock : ℕ → Timeval
clock n = record { sec = 100 + n; usec = 0 }

abbrev idle : Caller ℕ
idle = record {
  info = record { rtt = 0; srtt = 0; rttvar = 0; rto = 0; nrexmt = 0; base = 0 };
  rttinit = false;
  seq = 6;
  calls = 0;
  sent = [];
  alarms = [];
}

abbrev outbuff : List ℕ
outbuff = codes "ping"

-- An old reply, an alarm, and the reply.
abbrev noise : List Event
noise = short ∷ message 6 0 (codes "old") ∷ alarm_rings ∷ []

abbrev seconds : Result × Caller ℕ → List ℕ
seconds (r, c) = c.alarms

-- 3 seconds, then twice that, and the timer stopped.
timers :
    seconds
      (dg_send_recv fixed clock outbuff 100 (noise ++ message 7 1000 (codes "pong") ∷ []) idle)
    ≡ 3 ∷ 6 ∷ 0 ∷ []
unfolding dg_send_recv rtt_minmax rtt_init rtt_ts rtt_newpack rtt_start rtt_stop rtt_timeout
timers = refl

not_less : (n : ℕ) → ltb n n ≡ false
not_less n = ground arith

dg_send_recv_replies_example :
    (d : Caller ℕ) × (dg_send_recv fixed clock outbuff 100
        (noise ++ message 7 1000 (codes "pong") ∷ [])
        idle
      ≡ (reply (take 100 (codes "pong")), d))
    × Requests 7 outbuff 2 [] d.sent
dg_send_recv_replies_example =
    dg_send_recv_replies fixed clock outbuff 100 noise [] 1000 (codes "pong") idle
      (tt, ((λ e. ground arith), (tt, tt))) (omega arith)

abbrev alarms : List Event
alarms = alarm_rings ∷ alarm_rings ∷ short ∷ alarm_rings ∷ []

dg_send_recv_gives_up_example :
    (d : Caller ℕ) × (dg_send_recv fixed clock outbuff 100 (alarms ++ alarm_rings ∷ []) idle
      ≡ (gave_up, d))
    × (d.rttinit ≡ false)
    × Requests 7 outbuff (suc rtt_maxnrexmt) [] d.sent
dg_send_recv_gives_up_example =
    dg_send_recv_gives_up fixed clock outbuff 100 alarms [] idle (tt, (tt, (tt, (tt, tt)))) refl
