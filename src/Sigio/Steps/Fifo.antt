-- ===== src/Sigio/Steps/Fifo.antt =====
-- The order in which `dg_echo` sends the datagrams back.
use unix_network_programming.Base.{
  ℕ, zero, suc, ◌-◌, ◌≤◌, ◌<◌, ◌≡◌, refl, ap, ap₂, sym, ◌∙◌, subst, List, [], ◌∷◌, ◌++◌,
  append_assoc, append-nil, Bool, true, false, arith, length,
}
use unix_network_programming.Sigio.{qsize, Dg, Received, Queue, next}
use unix_network_programming.Sigio.Ring.{ring, behind, next_bound}
use unix_network_programming.Sigio.Handler.{returned, reads, sig_io}
use unix_network_programming.Sigio.Handler.Laws.{Fits, in_use, Appended, OnReturn, sig_io_appends}
use unix_network_programming.Sigio.Steps.{
  Phase, starting, waiting, unmasked, sent, advanced, masked, State, state, Step, Reachable,
}

abbrev tail : List Dg → List Dg
tail [] = []
tail (d ∷ ds) = ds

-- The first datagram in use is already sent, but not taken off the queue.
abbrev is_sent : Phase → Bool
is_sent starting = false
is_sent waiting = false
is_sent unmasked = false
is_sent sent = true
is_sent advanced = true
is_sent masked = true

-- Where iget is, with the part in use beginning at `head`.
abbrev get_from : Phase → ℕ → ℕ
get_from starting head = head
get_from waiting head = head
get_from unmasked head = head
get_from sent head = head
get_from advanced head = next head
get_from masked head = next head

abbrev least : Phase → ℕ
least starting = 0
least waiting = 0
least unmasked = 1
least sent = 1
least advanced = 1
least masked = 1

abbrev pending : Phase → List Dg → List Dg
pending starting ds = ds
pending waiting ds = ds
pending unmasked ds = ds
pending sent ds = tail ds
pending advanced ds = tail ds
pending masked ds = tail ds

-- The invariant, for a part in use that begins at `head`.
abbrev Holds : ℕ → State → Type 0
Holds head s =
    Fits head s.queue
    × (s.queue.iget ≡ get_from s.phase head)
    × (least s.phase ≤ s.queue.nqueue)
    × (s.arrived ≡ s.echoed ++ pending s.phase (in_use head s.queue))

tail-append : (ds es : List Dg) → 1 ≤ length ds → tail (ds ++ es) ≡ tail ds ++ es
tail-append [] es h = ground arith
tail-append (d ∷ ds) es h = refl

length-ring : (f : ℕ → Dg) (i n : ℕ) → length (ring f i n) ≡ n
length-ring f i zero = refl
length-ring f i (suc n) = ap suc (length-ring f (next i) n)

pending-append :
    (phase : Phase) (f : ℕ → Dg) (i n : ℕ) (es : List Dg)
    → least phase ≤ n
    → pending phase (ring f i n ++ es) ≡ pending phase (ring f i n) ++ es
pending-append starting f i n es h = refl
pending-append waiting f i n es h = refl
pending-append unmasked f i n es h = refl
pending-append sent f i n es h = tail-append (ring f i n) es (rw (length-ring f i n) h)
pending-append advanced f i n es h = tail-append (ring f i n) es (rw (length-ring f i n) h)
pending-append masked f i n es h = tail-append (ring f i n) es (rw (length-ring f i n) h)

-- A signal in any phase.
signal-Holds :
    (head : ℕ) (phase : Phase) (q q' : Queue) (arrived echoed : List Dg) (answers : List Received)
    → Holds head (state phase q arrived echoed)
    → sig_io answers q ≡ returned q'
    → Holds head (state phase q' (arrived ++ reads q.clilen answers) echoed)
signal-Holds head phase q q' arrived echoed answers (f, g, l, e) r =
    let ds = reads q.clilen answers in
    let (f', g', c, n, e') =
      subst (OnReturn (Appended head q ds)) r (sig_io_appends answers head q f) in
    (
      f',
      g' ∙ g,
      omega arith,
      ap (λ xs. xs ++ ds) e
          ∙ append_assoc echoed (pending phase (in_use head q)) ds
          ∙ ap (λ xs. echoed ++ xs)
              (sym (pending-append phase q.dg head q.nqueue ds l) ∙ ap (pending phase) (sym e')),
    )

ring_first : (f : ℕ → Dg) (i n : ℕ) → 1 ≤ n → ring f i n ≡ f i ∷ tail (ring f i n)
ring_first f i zero h = ground arith
ring_first f i (suc n) h = refl

ring_rest : (f : ℕ → Dg) (i n : ℕ) → 1 ≤ n → tail (ring f i n) ≡ ring f (next i) (n - 1)
ring_rest f i zero h = ground arith
ring_rest f i (suc n) h = ap (ring f (next i)) (omega arith)

behind_rest : (i n : ℕ) → i < qsize → 1 ≤ n → n ≤ qsize → behind i n ≡ behind (next i) (n - 1)
behind_rest i n h k l = ground arith

Kept : State → Type 0
Kept s = (head : ℕ) × Holds head s

step-Kept : (s t : State) → Step s t → Kept s → Kept t
unfolding Kept
step-Kept s t (Step.suspended q q' arrived echoed answers z r) (head, h) =
    (head, signal-Holds head waiting q q' arrived echoed answers h r)
step-Kept s t (Step.interrupted phase q q' arrived echoed answers w m r) (head, h) =
    (head, signal-Holds head phase q q' arrived echoed answers h r)
step-Kept s t (Step.start q arrived echoed) (head, h) = (head, h)
step-Kept s t (Step.unmask q arrived echoed z) (head, (f, g, l, e)) = (head, (f, g, omega arith, e))
step-Kept s t (Step.sendto q arrived echoed) (head, (f, g, l, e)) = (
  head,
  (
    f,
    g,
    l,
    e
        ∙ ap (λ xs. echoed ++ xs)
            (ring_first q.dg head q.nqueue l ∙ ap (λ i. q.dg i ∷ tail (in_use head q)) (sym g))
        ∙ sym (append_assoc echoed (q.dg q.iget ∷ []) (tail (in_use head q))),
  ),
)
step-Kept s t (Step.advance q arrived echoed) (head, (f, g, l, e)) = (head, (f, ap next g, l, e))
step-Kept s t (Step.mask q arrived echoed) (head, h) = (head, h)
step-Kept s t (Step.dequeue q arrived echoed) (head, ((b, n, p), g, l, e)) = (
  next head,
  (
    (next_bound head b, omega arith, p ∙ behind_rest head q.nqueue b l n),
    g,
    ground arith,
    e ∙ ap (λ xs. echoed ++ xs) (ring_rest q.dg head q.nqueue l),
  ),
)

Reachable-Kept : (s : State) → Reachable s → Kept s
unfolding Kept
Reachable-Kept s (Reachable.started buffers clilen cntread) =
    (0, ((ground arith, ground arith, refl), refl, ground arith, refl))
Reachable-Kept s (Reachable.stepped t u r p) = step-Kept t s p (Reachable-Kept t r)

length-tail : (ds : List Dg) → length (tail ds) ≤ length ds
length-tail [] = omega arith
length-tail (d ∷ ds) = omega arith

length-pending : (phase : Phase) (ds : List Dg) → length (pending phase ds) ≤ length ds
length-pending starting ds = omega arith
length-pending waiting ds = omega arith
length-pending unmasked ds = omega arith
length-pending sent ds = length-tail ds
length-pending advanced ds = length-tail ds
length-pending masked ds = length-tail ds

pending_bound :
    (phase : Phase) (f : ℕ → Dg) (i n : ℕ) → n ≤ qsize → length (pending phase (ring f i n)) ≤ qsize
pending_bound phase f i n h =
    let l = length-pending phase (ring f i n) in let e = length-ring f i n in omega arith

get_bound : (phase : Phase) (head : ℕ) → head < qsize → get_from phase head < qsize
get_bound starting head h = h
get_bound waiting head h = h
get_bound unmasked head h = h
get_bound sent head h = h
get_bound advanced head h = next_bound head h
get_bound masked head h = next_bound head h

behind_bound : (i n : ℕ) → i < qsize → n ≤ qsize → behind i n < qsize
behind_bound i n h k = ground arith

-- What is echoed, and what is still to be, is what arrived; no more than QSIZE datagrams wait.
abbrev pub IsFifo : State → Type 0
IsFifo s = (rest : List Dg) × (s.arrived ≡ s.echoed ++ rest) × (length rest ≤ qsize)

-- Whenever the signals come, each datagram is sent back once, to the address it came from, in the
-- order of arrival: what was sent is a beginning of what arrived, and at most QSIZE are still due.
pub Reachable-IsFifo : (s : State) → Reachable s → IsFifo s
unfolding Kept
Reachable-IsFifo s r =
    let (head, (f, g, l, e)) = Reachable-Kept s r in
    (
      pending s.phase (in_use head s.queue),
      e,
      pending_bound s.phase s.queue.dg head s.queue.nqueue f.1,
    )

-- Both indices stay inside the array, and nqueue does not pass its size.
pub Reachable-bounds :
    (s : State)
    → Reachable s
    → (s.queue.iget < qsize) × (s.queue.iput < qsize) × (s.queue.nqueue ≤ qsize)
unfolding Kept
Reachable-bounds s r =
    let (head, ((h, n, p), g, l, e)) = Reachable-Kept s r in
    (
      subst (λ i. i < qsize) (sym g) (get_bound s.phase head h),
      subst (λ i. i < qsize) (sym p) (behind_bound head s.queue.nqueue h n),
      n,
    )

-- Where the main loop waits on an empty queue, all that arrived was sent back.
pub waiting_done :
    (s : State) → Reachable s → s.phase ≡ waiting → s.queue.nqueue ≡ 0 → s.echoed ≡ s.arrived
unfolding Kept
waiting_done s r p z =
    let (head, (f, g, l, e)) = Reachable-Kept s r in
    sym (
      e
      ∙ ap₂ (λ phase n. s.echoed ++ pending phase (ring s.queue.dg head n)) p z
      ∙ append-nil s.echoed)
