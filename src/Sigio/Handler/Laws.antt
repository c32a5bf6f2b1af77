-- ===== src/Sigio/Handler/Laws.antt =====
-- What a run of `sig_io` does to the queue.
use unix_network_programming.Base.{
  ℕ, suc, ◌+◌, ◌≤◌, ◌<◌, ◌≡◌, refl, ap, ap₂, sym, ◌∙◌, List, [], ◌∷◌, ◌++◌, append_assoc,
  append-nil, Bool, true, false, leb, if◌then◌else◌, arith, Bool-cases, length, leb→gt, leb→le,
  gt→leb, le→leb, then_branch, else_branch, ◌⊎◌, inl, inr,
}
use unix_network_programming.Sigio.{
  qsize, Dg, Received, datagram, would_block, broken, Queue, update, next,
}
use unix_network_programming.Sigio.Ring.{ring, behind, next-behind, ring-update, ring_snoc}
use unix_network_programming.Sigio.Handler.{
  Outcome, returned, overflow, broke, unanswered, prepare, stored, put, count, reads, sig_io_loop,
  sig_io,
}

-- The part in use begins at `head`, and the next datagram goes behind it.
abbrev pub Fits : ℕ → Queue → Type 0
Fits head q = (head < qsize) × (q.nqueue ≤ qsize) × (q.iput ≡ behind head q.nqueue)

abbrev pub in_use : ℕ → Queue → List Dg
in_use head q = ring q.dg head q.nqueue

-- The queue after a return, with `ds` put behind what was in use.
abbrev pub Appended : ℕ → Queue → List Dg → Queue → Type 0
Appended head q ds q' =
    Fits head q'
    × (q'.iget ≡ q.iget)
    × (q'.clilen ≡ q.clilen)
    × (q.nqueue ≤ q'.nqueue)
    × (in_use head q' ≡ in_use head q ++ ds)

abbrev pub OnReturn : (Queue → Type 0) → Outcome → Type 0
OnReturn P (returned q) = P q
OnReturn P overflow = Unit
OnReturn P broke = Unit
OnReturn P unanswered = Unit

if_OnReturn :
    (P : Queue → Type 0) (b : Bool) (x y : Outcome)
    → OnReturn P x
    → (b ≡ false → OnReturn P y)
    → OnReturn P (if b then x else y)
if_OnReturn P true x y h k = h
if_OnReturn P false x y h k = k refl

prepare_lem :
    (head : ℕ) (q : Queue) → Fits head q → q.nqueue < qsize → Appended head q [] (prepare q)
prepare_lem head q (h, n, p) l = (
  (h, n, p),
  refl,
  refl,
  omega arith,
  (rw p (
        ring-update q.dg (record (q.dg (behind head q.nqueue)) { salen = q.clilen }) head q.nqueue
          q.nqueue h (omega arith) l))
      ∙ sym (append-nil (in_use head q)),
)

update_same {ℓ} : {A : Type ℓ} (f : ℕ → A) (d : A) (i j : ℕ) → j ≡ i → update f i d j ≡ d
update_same f d i j h = ground arith

written :
    (q : Queue) (d : Dg) (head : ℕ)
    → head < qsize
    → q.nqueue < qsize
    → q.iput ≡ behind head q.nqueue
    → ring (update q.dg q.iput d) head (suc q.nqueue) ≡ in_use head q ++ d ∷ []
written q d head h l p =
    let n = q.nqueue in
    let f = update q.dg q.iput d in
    ring_snoc f head n h l
    ∙ ap₂ (λ xs x. xs ++ x ∷ [])
        (ap (λ i. ring (update q.dg i d) head n) p ∙ ring-update q.dg d head n n h (omega arith) l)
        (update_same q.dg d q.iput (behind head q.nqueue) (sym p))

put_lem :
    (head : ℕ) (q : Queue) (bytes from : List ℕ)
    → Fits head q
    → q.nqueue < qsize
    → Appended head q (stored q.clilen bytes from ∷ []) (put bytes from q)
put_lem head q bytes from (h, n, p) l = (
  (h, omega arith, ap next p ∙ next-behind head q.nqueue h l),
  refl,
  refl,
  omega arith,
  written q (stored q.clilen bytes from) head h l p,
)

Appended-trans :
    (head : ℕ) (q q1 q2 : Queue) (ds es : List Dg)
    → Appended head q ds q1
    → Appended head q1 es q2
    → Appended head q (ds ++ es) q2
Appended-trans head q q1 q2 ds es (f, g, c, n, e) (f1, g1, c1, n1, e1) = (
  f1,
  g1 ∙ g,
  c1 ∙ c,
  omega arith,
  e1 ∙ ap (λ xs. xs ++ es) e ∙ append_assoc (in_use head q) ds es,
)

onwards :
    (head : ℕ) (q q1 : Queue) (ds es : List Dg)
    → Appended head q ds q1
    → (o : Outcome) → OnReturn (Appended head q1 es) o
    → OnReturn (Appended head q (ds ++ es)) o
onwards head q q1 ds es f (returned q2) g = Appended-trans head q q1 q2 ds es f g
onwards head q q1 ds es f overflow g = tt
onwards head q q1 ds es f broke g = tt
onwards head q q1 ds es f unanswered g = tt

-- What each answer leaves to the rest of the handler.
loop_lem :
    (answers : List Received) (head nread : ℕ) (q : Queue)
    → Fits head q
    → OnReturn (Appended head q (reads q.clilen answers)) (sig_io_loop answers nread q)
unfolding sig_io_loop
loop_lem [] head nread q f =
    if_OnReturn (Appended head q []) (leb qsize q.nqueue) overflow unanswered tt (λ _. tt)
loop_lem (would_block ∷ rest) head nread q f =
    if_OnReturn (Appended head q []) (leb qsize q.nqueue) overflow
      (returned (count nread (prepare q))) tt (λ e. prepare_lem head q f (leb→gt qsize q.nqueue e))
loop_lem (broken ∷ rest) head nread q f =
    if_OnReturn (Appended head q []) (leb qsize q.nqueue) overflow broke tt (λ _. tt)
loop_lem (datagram bytes from ∷ rest) head nread q f =
    let q1 = put bytes from (prepare q) in
    let d = stored q.clilen bytes from in
    let ds = reads q.clilen rest in
    if_OnReturn (Appended head q (d ∷ ds)) (leb qsize q.nqueue) overflow
      (sig_io_loop rest (nread + 1) q1) tt
      (λ e.
        let first = prepare_lem head q f (leb→gt qsize q.nqueue e) in
        let second = put_lem head (prepare q) bytes from first.0 (leb→gt qsize q.nqueue e) in
        let both = Appended-trans head q (prepare q) q1 [] (d ∷ []) first second in
        onwards head q q1 (d ∷ []) ds both (sig_io_loop rest (nread + 1) q1)
          (loop_lem rest head (nread + 1) q1 both.0))

-- For a queue in which iput stands behind the part in use: where the handler returns, it has put what
-- it read behind that part, in order, and has changed nothing of it.
pub sig_io_appends :
    (answers : List Received) (head : ℕ) (q : Queue)
    → Fits head q
    → OnReturn (Appended head q (reads q.clilen answers)) (sig_io answers q)
unfolding sig_io
sig_io_appends answers head q f = loop_lem answers head 0 q f

-- A batch of datagrams, and then no more.
abbrev pub batch : List (List ℕ) → List ℕ → List Received
batch [] from = would_block ∷ []
batch (b ∷ bs) from = datagram b from ∷ batch bs from

loop_returns :
    (bs : List (List ℕ)) (from : List ℕ) (nread : ℕ) (q : Queue)
    → q.nqueue + length bs < qsize
    → (q' : Queue) × (sig_io_loop (batch bs from) nread q ≡ returned q')
unfolding sig_io_loop
loop_returns [] from nread q h =
    (count nread (prepare q), else_branch _ _ (gt→leb qsize q.nqueue (omega arith)))
loop_returns (b ∷ bs) from nread q h =
    let (q', e) = loop_returns bs from (nread + 1) (put b from (prepare q)) (omega arith) in
    (q', else_branch _ _ (gt→leb qsize q.nqueue (omega arith)) ∙ e)

loop_overflows :
    (bs : List (List ℕ)) (from : List ℕ) (nread : ℕ) (q : Queue)
    → qsize ≤ q.nqueue + length bs
    → sig_io_loop (batch bs from) nread q ≡ overflow
unfolding sig_io_loop
loop_overflows [] from nread q h = then_branch _ _ (le→leb qsize q.nqueue (omega arith))
loop_overflows (b ∷ bs) from nread q h = elim (Bool-cases (leb qsize q.nqueue)) [
  | inl e ↦ then_branch _ _ e
  | inr e ↦
      else_branch _ _ e ∙ loop_overflows bs from (nread + 1) (put b from (prepare q)) (omega arith)
]

-- A batch of datagrams is read where it leaves one place of the array free; a batch that fills the
-- array ends the process, although every datagram of it was read and no other has come.
pub sig_io_room :
    (bs : List (List ℕ)) (from : List ℕ) (q : Queue)
    → ((qsize ≤ q.nqueue + length bs) × (sig_io (batch bs from) q ≡ overflow))
      ⊎ ((q.nqueue + length bs < qsize) × ((q' : Queue) × (sig_io (batch bs from) q ≡ returned q')))
unfolding sig_io
sig_io_room bs from q = elim (Bool-cases (leb qsize (q.nqueue + length bs))) [
  | inl e ↦ let l = leb→le qsize (q.nqueue + length bs) e in inl (l, loop_overflows bs from 0 q l)
  | inr e ↦ let l = leb→gt qsize (q.nqueue + length bs) e in inr (l, loop_returns bs from 0 q l)
]
