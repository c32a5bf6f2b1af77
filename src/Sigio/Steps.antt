-- ===== src/Sigio/Steps.antt =====
-- The main loop of `dg_echo` of unpv1e3/sigio/dgecho01.c, and the signals between its steps.
pub mod Fifo
use unix_network_programming.Base.{ℕ, ◌+◌, ◌-◌, ◌≡◌, ◌≢◌, List, [], ◌∷◌, ◌++◌}
use unix_network_programming.Sigio.{Dg, Received, Queue, next, initial}
use unix_network_programming.Sigio.Handler.{returned, reads, sig_io}

-- Where `dg_echo` stands: before the first SIG_BLOCK, before sigsuspend, before Sendto, before
-- ++iget, before the next SIG_BLOCK, and before nqueue--. SIGIO is blocked in `waiting`, but for
-- sigsuspend, and in `masked`.
pub data Phase : Type 0 where
  starting waiting unmasked sent advanced masked : Phase

-- `arrived` is what recvfrom stored, `echoed` what was sent to the clients, in order.
pub record State : Type 0 where
  pub phase : Phase
  pub queue : Queue
  pub arrived : List Dg
  pub echoed : List Dg

abbrev pub state : Phase → Queue → List Dg → List Dg → State
state phase q arrived echoed = record {
  phase = phase;
  queue = q;
  arrived = arrived;
  echoed = echoed;
}

-- A step that ends the process is none.
pub data Step : State → State → Type 0 where
  suspended :
      (q q' : Queue) (arrived echoed : List Dg) (answers : List Received)
      → q.nqueue ≡ 0
      → sig_io answers q ≡ returned q'
      → Step
          (state waiting q arrived echoed)
          (state waiting q' (arrived ++ reads q.clilen answers) echoed)
  interrupted :
      (phase : Phase) (q q' : Queue) (arrived echoed : List Dg) (answers : List Received)
      → phase ≢ waiting
      → phase ≢ masked
      → sig_io answers q ≡ returned q'
      → Step
          (state phase q arrived echoed)
          (state phase q' (arrived ++ reads q.clilen answers) echoed)
  start :
      (q : Queue) (arrived echoed : List Dg)
      → Step (state starting q arrived echoed) (state waiting q arrived echoed)
  unmask :
      (q : Queue) (arrived echoed : List Dg)
      → q.nqueue ≢ 0
      → Step (state waiting q arrived echoed) (state unmasked q arrived echoed)
  sendto :
      (q : Queue) (arrived echoed : List Dg)
      → Step (state unmasked q arrived echoed) (state sent q arrived (echoed ++ q.dg q.iget ∷ []))
  advance :
      (q : Queue) (arrived echoed : List Dg)
      → Step
          (state sent q arrived echoed)
          (state advanced (record q { iget = next q.iget }) arrived echoed)
  mask :
      (q : Queue) (arrived echoed : List Dg)
      → Step (state advanced q arrived echoed) (state masked q arrived echoed)
  dequeue :
      (q : Queue) (arrived echoed : List Dg)
      → Step
          (state masked q arrived echoed)
          (state waiting (record q { nqueue = q.nqueue - 1 }) arrived echoed)

-- The states that `dg_echo` comes to.
pub data Reachable : State → Type 0 where
  started :
      (buffers : ℕ → Dg) (clilen : ℕ) (cntread : ℕ → ℕ)
      → Reachable (state starting (initial buffers clilen cntread) [] [])
  stepped : (s t : State) → Reachable s → Step s t → Reachable t
