-- ===== src/Rtt/SendRecv/Laws.antt =====
-- The requests that `dg_send_recv` sends, and the reply that it returns.
use unix_network_programming.Base.{
  ℕ, zero, suc, ◌+◌, ◌≤◌, ◌<◌, ◌≡◌, ◌≢◌, refl, ap, sym, ◌∙◌, subst, List, [], ◌∷◌, ◌++◌,
  append_assoc, append-nil, true, false, ◌==◌, take, length, length-append, All, All-append, arith,
  Bool-cases, inl, inr, then_branch, else_branch,
}
use unix_network_programming.Rtt.{
  Floats, RttInfo, Timeval, rtt_maxnrexmt, uint32, rtt_newpack, rtt_timeout,
}
use unix_network_programming.Rtt.SendRecv.{
  Event, alarm_rings, short, message, broken, Sent, Caller, reply, gave_up, first_time, send, stop,
  wait, new_packet, dg_send_recv,
}

abbrev pub IsRequest : ℕ → List ℕ → Sent → Type 0
IsRequest seq outbuff s = (s.seq ≡ seq) × (s.data_bytes ≡ outbuff)

-- `n` more requests were sent, all the same but for the time.
abbrev pub Requests : ℕ → List ℕ → ℕ → List Sent → List Sent → Type 0
Requests seq outbuff n before after =
    (new : List Sent) × (after ≡ before ++ new) × (length new ≡ n) × All (IsRequest seq outbuff) new

-- What is let pass, and how often the alarm rings.
abbrev pub IsNoise : ℕ → Event → Type 0
IsNoise seq alarm_rings = Unit
IsNoise seq short = Unit
IsNoise seq (message other ts body) = other ≢ seq
IsNoise seq broken = ⊥

abbrev pub alarms_in : List Event → ℕ
alarms_in [] = 0
alarms_in (alarm_rings ∷ es) = suc (alarms_in es)
alarms_in (short ∷ es) = alarms_in es
alarms_in (message other ts body ∷ es) = alarms_in es
alarms_in (broken ∷ es) = alarms_in es

equal_test : (a b : ℕ) → a ≡ b → (a == b) ≡ true
equal_test a b h = ground arith

none_sent : (seq : ℕ) (outbuff : List ℕ) (sent : List Sent) → Requests seq outbuff 0 sent sent
none_sent seq outbuff sent = ([], sym (append-nil sent), refl, tt)

-- One request, and then `n` more.
Requests-suc :
    (seq : ℕ) (outbuff : List ℕ) (n : ℕ) (a b c : List Sent)
    → Requests seq outbuff 1 a b
    → Requests seq outbuff n b c
    → Requests seq outbuff (suc n) a c
Requests-suc seq outbuff n a b c (new, e, l, h) (more, f, k, g) = (
  new ++ more,
  f ∙ ap (λ xs. xs ++ more) e ∙ append_assoc a new more,
  rw (length-append new more) (omega arith),
  All-append (IsRequest seq outbuff) new more h g,
)

module _ {F : Type 0} (fl : Floats F) (clock : ℕ → Timeval) (outbuff : List ℕ) (inbytes : ℕ) where
  -- The state after an alarm, and after `k` of them.
  abbrev pub later : Caller F → Caller F
  later c = record c { info = (rtt_timeout fl c.info).1 }

  abbrev pub resend : Caller F → Caller F
  resend c = send fl clock outbuff inbytes (later c)

  abbrev pub resent : ℕ → Caller F → Caller F
  resent zero c = c
  resent (suc k) c = resent k (resend c)

  timeout_goes : (info : RttInfo F) → info.nrexmt < rtt_maxnrexmt → (rtt_timeout fl info).0 ≡ true
  unfolding rtt_timeout
  timeout_goes info h = ground arith

  timeout_ends : (info : RttInfo F) → rtt_maxnrexmt ≤ info.nrexmt → (rtt_timeout fl info).0 ≡ false
  unfolding rtt_timeout
  timeout_ends info h = ground arith

  timeout_counts : (info : RttInfo F) → (rtt_timeout fl info).1.nrexmt ≡ info.nrexmt + 1
  unfolding rtt_timeout
  timeout_counts info = ground arith

  -- Noise with few enough alarms is passed over, with a request for each alarm.
  wait_noise :
      (es rest : List Event) (c : Caller F)
      → All (IsNoise c.seq) es
      → alarms_in es + c.info.nrexmt ≤ rtt_maxnrexmt
      → wait fl clock outbuff inbytes (es ++ rest) c
        ≡ wait fl clock outbuff inbytes rest (resent (alarms_in es) c)
  unfolding wait
  wait_noise [] rest c h l = refl
  wait_noise (short ∷ es) rest c (h, hs) l = wait_noise es rest c hs l
  wait_noise (message other ts body ∷ es) rest c (h, hs) l =
      else_branch {b = other == c.seq} _ _ (ground arith) ∙ wait_noise es rest c hs l
  wait_noise (alarm_rings ∷ es) rest c (h, hs) l =
      then_branch _ _ (timeout_goes c.info (omega arith))
      ∙ wait_noise es rest (resend c) hs (
          subst (λ n. alarms_in es + n ≤ rtt_maxnrexmt) (sym (timeout_counts c.info)) (omega arith))
  wait_noise (broken ∷ es) rest c (h, hs) l = elim h [ ]

  one_sent : (c : Caller F) → Requests c.seq outbuff 1 c.sent (send fl clock outbuff inbytes c).sent
  one_sent c = (_, refl, refl, ((refl, refl), tt))

  -- The requests of `k` alarms.
  resent_lem :
      (k : ℕ) (c : Caller F)
      → Requests c.seq outbuff k c.sent (resent k c).sent
        × ((resent k c).seq ≡ c.seq)
        × ((resent k c).info.nrexmt ≡ k + c.info.nrexmt)
  resent_lem zero c = (none_sent c.seq outbuff c.sent, refl, ground arith)
  resent_lem (suc k) c =
      let (r, s, n) = resent_lem k (resend c) in
      (
        Requests-suc c.seq outbuff k c.sent (resend c).sent (resent k (resend c)).sent
            (one_sent (later c)) r,
        s,
        n ∙ ap (λ m. k + m) (timeout_counts c.info) ∙ omega arith,
      )

  abbrev pub begun : Caller F → Caller F
  begun c = new_packet fl clock outbuff inbytes c

  first_time_keeps :
      (c : Caller F)
      → ((first_time fl clock outbuff inbytes c).seq ≡ c.seq)
        × ((first_time fl clock outbuff inbytes c).sent ≡ c.sent)
  first_time_keeps c = elim (Bool-cases c.rttinit) [
    | inl e ↦ rw e (refl, refl)
    | inr e ↦ rw e (refl, refl)
  ]

  -- The next sequence number.
  abbrev pub next_seq : Caller F → ℕ
  next_seq c = uint32 (c.seq + 1)

  begun_lem :
      (c : Caller F)
      → ((begun c).seq ≡ next_seq c) × ((begun c).sent ≡ c.sent) × ((begun c).info.nrexmt ≡ 0)
  unfolding rtt_newpack
  begun_lem c = let (s, t) = first_time_keeps c in (ap (λ n. uint32 (n + 1)) s, t, refl)

  -- All that happens up to an event: where the alarm rang no more than three times, the call stands
  -- at that event, and has sent one request more than the alarm rang.
  up_to :
      (noise rest : List Event) (c : Caller F)
      → All (IsNoise (next_seq c)) noise
      → alarms_in noise ≤ rtt_maxnrexmt
      → (d : Caller F) × (dg_send_recv fl clock outbuff inbytes (noise ++ rest) c
          ≡ wait fl clock outbuff inbytes rest d)
        × Requests (next_seq c) outbuff (suc (alarms_in noise)) c.sent d.sent
        × (d.seq ≡ next_seq c)
        × (d.info.nrexmt ≡ alarms_in noise)
  unfolding dg_send_recv
  up_to noise rest c h l =
      let k = alarms_in noise in
      let b = begun c in
      let first = send fl clock outbuff inbytes b in
      let (s, t, z) = begun_lem c in
      let (r, u, n) = resent_lem k first in
      (
        resent k first,
        wait_noise noise rest first (subst (λ q. All (IsNoise q) noise) (sym s) h)
            (subst (λ m. k + m ≤ rtt_maxnrexmt) (sym z) (omega arith)),
        subst (λ q. Requests q outbuff (suc k) c.sent (resent k first).sent) s
            (subst (λ a. Requests b.seq outbuff (suc k) a (resent k first).sent) t
              (Requests-suc b.seq outbuff k b.sent first.sent (resent k first).sent (one_sent b)
                r)),
        u ∙ s,
        n ∙ ap (λ m. k + m) z ∙ omega arith,
      )

  -- The first message with the number of the request is returned, cut to the buffer, if before it
  -- Recvmsg did not fail and the alarm rang no more than RTT_MAXNREXMT times; the request was sent
  -- once, and once more for each alarm.
  pub dg_send_recv_replies :
      (noise rest : List Event) (ts : ℕ) (body : List ℕ) (c : Caller F)
      → All (IsNoise (next_seq c)) noise
      → alarms_in noise ≤ rtt_maxnrexmt
      → (d : Caller F) × (dg_send_recv fl clock outbuff inbytes
            (noise ++ message (next_seq c) ts body ∷ rest)
            c
          ≡ (reply (take inbytes body), d))
        × Requests (next_seq c) outbuff (suc (alarms_in noise)) c.sent d.sent
  unfolding wait
  dg_send_recv_replies noise rest ts body c h l =
      let (d, e, r, s, n) = up_to noise (message (next_seq c) ts body ∷ rest) c h l in
      (
        stop fl clock outbuff inbytes ts d,
        e ∙ then_branch {b = next_seq c == d.seq} _ _ (equal_test (next_seq c) d.seq (sym s)),
        r,
      )

  -- When the alarm rings after RTT_MAXNREXMT alarms, with no reply and no failure of Recvmsg before,
  -- the call gives up, having sent the request RTT_MAXNREXMT + 1 times, and the timer is to be
  -- initialised anew.
  pub dg_send_recv_gives_up :
      (noise rest : List Event) (c : Caller F)
      → All (IsNoise (next_seq c)) noise
      → alarms_in noise ≡ rtt_maxnrexmt
      → (d : Caller F) × (dg_send_recv fl clock outbuff inbytes (noise ++ alarm_rings ∷ rest) c
          ≡ (gave_up, d))
        × (d.rttinit ≡ false)
        × Requests (next_seq c) outbuff (suc rtt_maxnrexmt) c.sent d.sent
  unfolding wait
  dg_send_recv_gives_up noise rest c h l =
      let (d, e, r, s, n) = up_to noise (alarm_rings ∷ rest) c h (omega arith) in
      (
        record d { info = (rtt_timeout fl d.info).1; rttinit = false },
        e ∙ else_branch {b = (rtt_timeout fl d.info).0} _ _ (timeout_ends d.info (omega arith)),
        refl,
        subst (λ m. Requests (next_seq c) outbuff (suc m) c.sent d.sent) l r,
      )
