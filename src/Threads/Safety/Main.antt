-- ===== src/Threads/Safety/Main.antt =====
-- Every step of `main` of Threads keeps the agreement, so it holds in every state that is reached.
use unix_network_programming.Base.{
  ℕ, suc, ◌≡◌, refl, sym, ap, ap₂, subst, Bool, true, false, ◌&&◌, none, some, ltb, leb, ◌==◌,
  if◌then◌else◌, then_branch, else_branch, get_elem?, length, holds_at, holds_at_elim, total-set,
  total-replicate, All-set, All-get_elem?, All-replicate, At, arith, tests, Bool-cases, inl, inr,
}
use unix_network_programming.Threads.{
  Flags, f_none, f_done, f_joined, Stage, absent, terminated, File, Place, top, starting, locking,
  checking, sleeping, over, nothing_found, scanning, joining, State, initial, go, is_done,
  is_terminated, find, start, join, scan, main_at, main_step,
}
use unix_network_programming.Threads.Steps.{Step, main, thread, Steps, here, then_step, Reachable}
use unix_network_programming.Threads.Invariant.{
  Agrees, not_started, is_connecting, is_reading, has_ended, is_counting, is_leaving,
  has_terminated, was_joined, FileAgrees, unused_weight, open_weight, unread_weight, counted_weight,
  holding_weight, held_by_main, PlaceHolds, IsSound,
}
use unix_network_programming.Threads.Safety.{
  Next, if_Next, thread_step-IsSound, go-IsSound, lock-IsSound, unlock-IsSound,
}
use unix_network_programming.Threads.Safety.Start.{find-Found, start-IsSound}

-- A file that is done and whose thread has returned.
joined_file :
    (flags : Flags) (stage : Stage)
    → Agrees flags stage
    → is_done flags ≡ true
    → is_terminated stage ≡ true
    → (flags ≡ f_done) × (stage ≡ terminated)
joined_file flags stage not_started d t = ground arith
joined_file flags stage is_connecting d t = ground arith
joined_file flags stage is_reading d t = ground arith
joined_file flags stage has_ended d t = ground arith
joined_file flags stage is_counting d t = ground arith
joined_file flags stage is_leaving d t = ground arith
joined_file flags stage has_terminated d t = (refl, refl)
joined_file flags stage was_joined d t = ground arith

join-IsSound :
    (maxnconn i : ℕ) (s : State)
    → s.place ≡ joining i
    → holds_at (λ f. is_done f.flags) (get_elem? s.files i) ≡ true
    → holds_at (λ f. is_terminated f.stage) (get_elem? s.files i) ≡ true
    → IsSound maxnconn s
    → IsSound maxnconn (join i s)
join-IsSound maxnconn i s e d t (hu, ho, hr, hn, hb, hm, ha, hp) =
    let (f, g, df) = holds_at_elim (λ f. is_done f.flags) (get_elem? s.files i) d in
    let tf = subst (λ o. holds_at (λ f. is_terminated f.stage) o ≡ true) g t in
    let a : FileAgrees f = subst (At FileAgrees) g (All-get_elem? FileAgrees s.files i ha) in
    let (uf, us) = joined_file f.flags f.stage a df tf in
    let f' : File = record { flags = f_joined; stage = terminated } in
    let eu = total-set (λ f. unused_weight f.flags) s.files i f f' g in
    let eo = total-set (λ f. open_weight f.flags) s.files i f f' g in
    let er = total-set (λ f. unread_weight f.flags) s.files i f f' g in
    let en = total-set (λ f. counted_weight f.flags f.stage) s.files i f f' g in
    let eb = total-set (λ f. holding_weight f.stage) s.files i f f' g in
    let wu = ap unused_weight uf in
    let wo = ap open_weight uf in
    let wr = ap unread_weight uf in
    let wn = ap₂ counted_weight uf us in
    let wb = ap holding_weight us in
    let wm = ap held_by_main e in
    (
      omega arith,
      omega arith,
      omega arith,
      omega arith,
      omega arith,
      omega arith,
      All-set FileAgrees s.files i f' ha was_joined,
      tt,
    )

scan-IsSound :
    (maxnconn i : ℕ) (s : State)
    → s.place ≡ scanning i
    → IsSound maxnconn s
    → IsSound maxnconn (scan i s)
scan-IsSound maxnconn i s e h =
    let held : held_by_main s.place ≡ 1 = ap held_by_main e in
    let done_here = holds_at (λ f. is_done f.flags) (get_elem? s.files i) in
    if_IsSound (ltb i (length s.files))
      (if done_here then go (joining i) s else go (scanning (suc i)) s)
      (record s { mutex = false; place = top })
      (λ b.
        if_IsSound done_here (go (joining i) s) (go (scanning (suc i)) s)
          (λ d. go-IsSound maxnconn (joining i) s (sym held) d h)
          (λ d. go-IsSound maxnconn (scanning (suc i)) s (sym held) tt h))
      (λ b. unlock-IsSound maxnconn top s held refl tt h)
  where
    if_IsSound :
        (b : Bool) (x y : State)
        → (b ≡ true → IsSound maxnconn x)
        → (b ≡ false → IsSound maxnconn y)
        → IsSound maxnconn (if b then x else y)
    if_IsSound true x y k l = k refl
    if_IsSound false x y k l = l refl

top-IsSound :
    (maxnconn : ℕ) (s : State)
    → s.place ≡ top
    → IsSound maxnconn s
    → IsSound maxnconn (go (if leb s.nlefttoread 0 then over else starting) s)
top-IsSound maxnconn s e (hu, ho, hr, hn, hb, hm, ha, hp) =
    elim (Bool-cases (leb s.nlefttoread 0)) [
      | inl b ↦
          subst (λ p. IsSound maxnconn (go p s))
            (sym (then_branch {b = leb s.nlefttoread 0} over starting b))
            (go-IsSound maxnconn over s free (omega (tests, b)) (hu, ho, hr, hn, hb, hm, ha, hp))
      | inr b ↦
          subst (λ p. IsSound maxnconn (go p s))
            (sym (else_branch {b = leb s.nlefttoread 0} over starting b))
            (go-IsSound maxnconn starting s free tt (hu, ho, hr, hn, hb, hm, ha, hp))
    ]
  where
    free : 0 ≡ held_by_main s.place
    free = sym (ap held_by_main e)

main_at-IsSound :
    (maxnconn : ℕ) (place : Place) (s : State)
    → s.place ≡ place
    → IsSound maxnconn s
    → Next maxnconn (main_at maxnconn place s)
unfolding main_at
main_at-IsSound maxnconn top s e h = top-IsSound maxnconn s e h
main_at-IsSound maxnconn starting s e h =
    if_Next maxnconn (ltb s.nconn maxnconn && ltb 0 s.nlefttoconn) (some (start (find s.files) s))
      (some (go locking s))
      (λ b.
        start-IsSound maxnconn (find s.files) s e (find-Found s.files) (ground arith) (ground arith)
          h)
      (λ b. go-IsSound maxnconn locking s (sym (ap held_by_main e)) tt h)
main_at-IsSound maxnconn locking s e h = lock-IsSound maxnconn s (ap held_by_main e) h
main_at-IsSound maxnconn checking s e h =
    if_Next maxnconn (s.ndone == 0) (some (record s { mutex = false; place = sleeping }))
      (some (go (scanning 0) s))
      (λ b. unlock-IsSound maxnconn sleeping s (ap held_by_main e) refl tt h)
      (λ b. go-IsSound maxnconn (scanning 0) s (sym (ap held_by_main e)) tt h)
main_at-IsSound maxnconn sleeping s e h = lock-IsSound maxnconn s (ap held_by_main e) h
main_at-IsSound maxnconn (scanning i) s e h = scan-IsSound maxnconn i s e h
main_at-IsSound maxnconn (joining i) s e (hu, ho, hr, hn, hb, hm, ha, hp) =
    if_Next maxnconn (holds_at (λ f. is_terminated f.stage) (get_elem? s.files i)) (some (join i s))
      none
      (λ t.
        join-IsSound maxnconn i s e (subst (λ p. PlaceHolds p s) e hp) t
          (hu, ho, hr, hn, hb, hm, ha, hp))
      (λ t. tt)
main_at-IsSound maxnconn over s e h = tt
main_at-IsSound maxnconn nothing_found s e h = tt

main_step-IsSound :
    (maxnconn : ℕ) (s : State) → IsSound maxnconn s → Next maxnconn (main_step maxnconn s)
unfolding main_step
main_step-IsSound maxnconn s h = main_at-IsSound maxnconn s.place s refl h

pub Step-IsSound :
    (maxnconn : ℕ) (s t : State) → Step maxnconn s t → IsSound maxnconn s → IsSound maxnconn t
Step-IsSound maxnconn s t (main s' t' e) h =
    subst (Next maxnconn) e (main_step-IsSound maxnconn s h)
Step-IsSound maxnconn s t (thread s' t' i eof e) h =
    subst (Next maxnconn) e (thread_step-IsSound maxnconn i eof s h)

initial-IsSound : (maxnconn nfiles : ℕ) → IsSound maxnconn (initial nfiles)
initial-IsSound maxnconn nfiles =
    let f : File = record { flags = f_none; stage = absent } in
    (
      omega (arith, total-replicate (λ f. unused_weight f.flags) nfiles f 1 refl),
      omega (arith, total-replicate (λ f. open_weight f.flags) nfiles f 0 refl),
      omega (arith, total-replicate (λ f. unread_weight f.flags) nfiles f 1 refl),
      omega (arith, total-replicate (λ f. counted_weight f.flags f.stage) nfiles f 0 refl),
      omega (arith, total-replicate (λ f. holding_weight f.stage) nfiles f 0 refl),
      omega arith,
      All-replicate FileAgrees nfiles f not_started,
      tt,
    )

pub Steps-IsSound :
    (maxnconn : ℕ) (s t : State) → Steps maxnconn s t → IsSound maxnconn s → IsSound maxnconn t
Steps-IsSound maxnconn s t (here s') h = h
Steps-IsSound maxnconn s u (then_step s' t u' r k) h =
    Step-IsSound maxnconn t u k (Steps-IsSound maxnconn s t r h)

-- Whatever the order in which main and the threads run: main always finds a file to start, has
-- started at most maxnconn threads that it has not joined, and exits only with all files read; its
-- counters are right, one at most holds the mutex, and no thread is joined twice or before its end.
pub Reachable-IsSound :
    (maxnconn nfiles : ℕ) (s : State) → Reachable maxnconn nfiles s → IsSound maxnconn s
Reachable-IsSound maxnconn nfiles s r =
    Steps-IsSound maxnconn (initial nfiles) s r (initial-IsSound maxnconn nfiles)
