-- ===== src/Tests/Sigio.antt =====
-- The queue of sigio/dgecho01.c in a run of two datagrams.
use unix_network_programming.Base.{ℕ, ◌≡◌, ◌≢◌, refl, List, [], ◌∷◌, codes, replicate, arith}
use unix_network_programming.Sigio.{Dg, Received, Queue, initial}
use unix_network_programming.Sigio.Handler.{
  returned, prepare, put, count, reads, sig_io_loop, sig_io,
}
use unix_network_programming.Sigio.Handler.Laws.{Appended, OnReturn, batch, sig_io_appends}
use unix_network_programming.Sigio.Steps.{
  starting, waiting, unmasked, sent, advanced, masked, State, state, Step, Reachable,
}
use unix_network_programming.Sigio.Steps.Fifo.{IsFifo, Reachable-IsFifo}

abbrev client : List ℕ
client = 127 ∷ 0 ∷ 0 ∷ 1 ∷ []

abbrev empty_slot : Dg
empty_slot = record { data_bytes = []; sa = []; salen = 16 }

abbrev begin : Queue
begin = initial (λ _. empty_slot) 16 (λ _. 0)

abbrev read_one : List Received
read_one = batch (codes "hi" ∷ []) client

-- The queue after the signal.
abbrev one_waits : Queue
one_waits = count 1 (prepare (put (codes "hi") client (prepare begin)))

signalled : sig_io read_one begin ≡ returned one_waits
unfolding sig_io sig_io_loop
signalled = refl

abbrev s1 : State
s1 = state starting one_waits (reads 16 read_one) []

abbrev s2 : State
s2 = state waiting one_waits (reads 16 read_one) []

abbrev s3 : State
s3 = state unmasked one_waits (reads 16 read_one) []

abbrev s4 : State
s4 = state sent one_waits (reads 16 read_one) (one_waits.dg 0 ∷ [])

starting_differs : (starting ≢ waiting) × (starting ≢ masked)
starting_differs = ((λ e. ground arith), (λ e. ground arith))

s1-Reachable : Reachable s1
s1-Reachable =
    Reachable.stepped (state starting begin [] []) s1
      (Reachable.started (λ _. empty_slot) 16 (λ _. 0))
      (Step.interrupted starting begin one_waits [] [] read_one starting_differs.0
        starting_differs.1 signalled)

s4-Reachable : Reachable s4
s4-Reachable =
    Reachable.stepped s3 s4
      (Reachable.stepped s2 s3
        (Reachable.stepped s1 s2 s1-Reachable (Step.start one_waits (reads 16 read_one) []))
        (Step.unmask one_waits (reads 16 read_one) [] (λ e. ground arith)))
      (Step.sendto one_waits (reads 16 read_one) [])

Reachable-IsFifo_example : IsFifo s4
Reachable-IsFifo_example = Reachable-IsFifo s4 s4-Reachable

abbrev eight : List (List ℕ)
eight = replicate 8 (codes "x")

sig_io_appends_example :
    OnReturn (Appended 0 begin (reads begin.clilen read_one)) (sig_io read_one begin)
sig_io_appends_example = sig_io_appends read_one 0 begin (omega arith, omega arith, refl)

s0 : Reachable (state waiting begin [] [])
s0 =
    Reachable.stepped (state starting begin [] []) (state waiting begin [] [])
      (Reachable.started (λ _. empty_slot) 16 (λ _. 0)) (Step.start begin [] [])

-- One datagram, from the signal to the end of the round.
abbrev s5 : State
s5 = state advanced (record one_waits { iget = 1 }) (reads 16 read_one) (one_waits.dg 0 ∷ [])

abbrev s6 : State
s6 = state masked (record one_waits { iget = 1 }) (reads 16 read_one) (one_waits.dg 0 ∷ [])

abbrev s7 : State
s7 =
    state waiting (record one_waits { iget = 1; nqueue = 0 }) (reads 16 read_one)
      (one_waits.dg 0 ∷ [])

s7-Reachable : Reachable s7
s7-Reachable =
    Reachable.stepped s6 s7
      (Reachable.stepped s5 s6
        (Reachable.stepped s4 s5 s4-Reachable
          (Step.advance one_waits (reads 16 read_one) (one_waits.dg 0 ∷ [])))
        (Step.mask s5.queue (reads 16 read_one) s5.echoed))
      (Step.dequeue s6.queue (reads 16 read_one) s6.echoed)
