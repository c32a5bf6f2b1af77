-- ===== src/Rtt/SendRecv.antt =====
-- `dg_send_recv` of unpv1e3/rtt/dg_send_recv.c: a request that is repeated until its reply comes.
pub mod Laws
use unix_network_programming.Base.{
  ℕ, ◌+◌, ◌-◌, List, [], ◌∷◌, ◌++◌, Bool, true, false, ◌==◌, if◌then◌else◌, take, length,
}
use unix_network_programming.Rtt.{
  Floats, RttInfo, Timeval, two_32, uint32, rtt_init, rtt_ts, rtt_newpack, rtt_start, rtt_stop,
  rtt_timeout,
}

-- What happens while the call waits: SIGALRM is delivered, Recvmsg takes less than a header, it
-- takes a header and some data, or it fails, which ends the process.
pub data Event : Type 0 where
  alarm_rings short : Event
  message : ℕ → ℕ → List ℕ → Event
  broken : Event

-- What Sendmsg is given: sendhdr and the buffer.
pub record Sent : Type 0 where
  pub seq : ℕ
  pub ts : ℕ
  pub data_bytes : List ℕ

-- rttinfo, rttinit and sendhdr.seq; the number of calls of Gettimeofday; and what was sent and the
-- seconds that alarm was called with.
pub record Caller (F : Type 0) : Type 0 where
  pub info : RttInfo F
  pub rttinit : Bool
  pub seq : ℕ
  pub calls : ℕ
  pub sent : List Sent
  pub alarms : List ℕ

-- `reply`: the datagram; `gave_up`: -1 with ETIMEDOUT; `waits`: the events end before the call does.
pub data Result : Type 0 where
  reply : List ℕ → Result
  gave_up exits waits : Result

module _ {F : Type 0} (fl : Floats F) (clock : ℕ → Timeval) (outbuff : List ℕ) (inbytes : ℕ) where
  abbrev pub first_time : Caller F → Caller F
  first_time c = if c.rttinit then c else record c {
    info = rtt_init fl (clock c.calls) c.info;
    calls = c.calls + 1;
    rttinit = true;
  }

  -- From `sendagain` to the alarm.
  abbrev pub send : Caller F → Caller F
  send c = record c {
    sent =
        c.sent
        ++ record { seq = c.seq; ts = rtt_ts fl (clock c.calls) c.info; data_bytes = outbuff } ∷ [];
    alarms = c.alarms ++ rtt_start fl c.info ∷ [];
    calls = c.calls + 1;
  }

  -- The reply with the time stamp `ts` came.
  abbrev pub stop : ℕ → Caller F → Caller F
  stop ts c =
      let now = rtt_ts fl (clock c.calls) c.info in
      record c {
        info = rtt_stop fl (uint32 (now + (two_32 - uint32 ts))) c.info;
        alarms = c.alarms ++ 0 ∷ [];
        calls = c.calls + 1;
      }

  -- From `sigsetjmp` on.
  pub wait : List Event → Caller F → Result × Caller F
  wait [] c = (waits, c)
  wait (short ∷ es) c = wait es c
  wait (broken ∷ es) c = (exits, c)
  wait (message seq ts body ∷ es) c =
      let ignored = wait es c in
      if seq == c.seq then (reply (take inbytes body), stop ts c) else ignored
  wait (alarm_rings ∷ es) c =
      let (go_on, info) = rtt_timeout fl c.info in
      let again = wait es (send (record c { info = info })) in
      if go_on then again else (gave_up, record c { info = info; rttinit = false })

  abbrev pub new_packet : Caller F → Caller F
  new_packet c =
      let begun = first_time c in
      record begun { seq = uint32 (begun.seq + 1); info = rtt_newpack fl begun.info }

  unfoldable pub dg_send_recv : List Event → Caller F → Result × Caller F
  unfolding wait
  dg_send_recv es c = wait es (send (new_packet c))
