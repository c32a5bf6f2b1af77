-- ===== src/Threads/Safety.antt =====
-- Every step of a thread of Threads keeps the agreement of Threads/Invariant.
pub mod Start
pub mod Main
use unix_network_programming.Base.{
  ℕ, zero, suc, ◌+◌, ◌-◌, ◌≤◌, ◌<◌, ◌≡◌, refl, sym, ap, subst, ◌∙◌, List, [], ◌∷◌, Bool, true,
  false, ◌&&◌, Option, none, some, ltb, leb, ◌==◌, if◌then◌else◌, get_elem?, set, length, replicate,
  holds_at, total, total-set, total-member, total-replicate, holds_at-set, All, All-set,
  All-get_elem?, All-replicate, At, arith, tests, Bool-cases, inl, inr, Option-cases,
}
use unix_network_programming.Threads.{
  Flags, f_none, f_connecting, f_reading, f_done, f_joined, Stage, absent, connects, reads, ended,
  counting, leaving, terminated, File, Place, top, starting, locking, checking, sleeping, over,
  nothing_found, scanning, joining, State, initial, go, is_unused, is_done, is_terminated, find,
  one_up, start, join, lock, scan, main_at, main_step, move, thread_at, thread_of, thread_step,
}
use unix_network_programming.Threads.Steps.{Step, main, thread, Steps, here, then_step, Reachable}
use unix_network_programming.Threads.Invariant.{
  Agrees, not_started, is_connecting, is_reading, has_ended, is_counting, is_leaving,
  has_terminated, was_joined, FileAgrees, unused_weight, open_weight, unread_weight, counted_weight,
  holding_weight, held_by_main, bit, PlaceHolds, IsSound,
}

-- The state that comes next, if there is one.
abbrev pub Next : ℕ → Option State → Type 0
Next maxnconn none = Unit
Next maxnconn (some t) = IsSound maxnconn t

pub if_Next :
    (maxnconn : ℕ) (b : Bool) (x y : Option State)
    → (b ≡ true → Next maxnconn x)
    → (b ≡ false → Next maxnconn y)
    → Next maxnconn (if b then x else y)
if_Next maxnconn true x y h k = h refl
if_Next maxnconn false x y h k = k refl

-- What a thread changes: its own file, ndone and the mutex.
abbrev pub changed : ℕ → File → ℕ → Bool → State → State
changed i f ndone mutex s = record s { files = set s.files i f; ndone = ndone; mutex = mutex }

PlaceHolds-changed :
    (i : ℕ) (f f' : File) (ndone : ℕ) (mutex : Bool) (place : Place) (s : State)
    → get_elem? s.files i ≡ some f
    → unread_weight f'.flags ≡ unread_weight f.flags
    → (is_done f.flags ≡ true → is_done f'.flags ≡ true)
    → PlaceHolds place s
    → PlaceHolds place (changed i f' ndone mutex s)
PlaceHolds-changed i f f' ndone mutex top s g u d h = tt
PlaceHolds-changed i f f' ndone mutex starting s g u d h = tt
PlaceHolds-changed i f f' ndone mutex locking s g u d h = tt
PlaceHolds-changed i f f' ndone mutex checking s g u d h = tt
PlaceHolds-changed i f f' ndone mutex sleeping s g u d h = tt
PlaceHolds-changed i f f' ndone mutex over s g u d h =
    let e = total-set (λ f. unread_weight f.flags) s.files i f f' g in omega (arith, e)
PlaceHolds-changed i f f' ndone mutex nothing_found s g u d h = h
PlaceHolds-changed i f f' ndone mutex (scanning j) s g u d h = tt
PlaceHolds-changed i f f' ndone mutex (joining j) s g u d h =
    holds_at-set (λ f. is_done f.flags) s.files j i f f' g d h

-- A change by a thread that keeps the weights main counts by, and moves ndone and the mutex with
-- the file.
changed-IsSound :
    (maxnconn i : ℕ) (f f' : File) (ndone : ℕ) (mutex : Bool) (s : State)
    → get_elem? s.files i ≡ some f
    → FileAgrees f'
    → (unused_weight f'.flags ≡ unused_weight f.flags)
      × (open_weight f'.flags ≡ open_weight f.flags)
      × (unread_weight f'.flags ≡ unread_weight f.flags)
      × (is_done f.flags ≡ true → is_done f'.flags ≡ true)
    → ndone + counted_weight f.flags f.stage ≡ s.ndone + counted_weight f'.flags f'.stage
    → bit mutex + holding_weight f.stage ≡ bit s.mutex + holding_weight f'.stage
    → IsSound maxnconn s
    → IsSound maxnconn (changed i f' ndone mutex s)
changed-IsSound maxnconn i f f' ndone mutex s g a (u, o, r, d) n b
      (hu, ho, hr, hn, hb, hm, ha, hp) =
    let eu = total-set (λ f. unused_weight f.flags) s.files i f f' g in
    let eo = total-set (λ f. open_weight f.flags) s.files i f f' g in
    let er = total-set (λ f. unread_weight f.flags) s.files i f f' g in
    let en = total-set (λ f. counted_weight f.flags f.stage) s.files i f f' g in
    let eb = total-set (λ f. holding_weight f.stage) s.files i f f' g in
    (
      omega arith,
      omega arith,
      omega arith,
      omega arith,
      omega arith,
      hm,
      All-set FileAgrees s.files i f' ha a,
      PlaceHolds-changed i f f' ndone mutex s.place s g r d hp,
    )

bit_bound : (b : Bool) → bit b ≤ 1
bit_bound true = omega arith
bit_bound false = omega arith

-- The mutex is held where a thread holds it.
leaving_holds :
    (maxnconn i : ℕ) (f : File) (s : State)
    → get_elem? s.files i ≡ some f
    → IsSound maxnconn s
    → holding_weight f.stage ≡ 1
    → 1 ≡ bit s.mutex + 0
leaving_holds maxnconn i f s g (hu, ho, hr, hn, hb, hm, ha, hp) e =
    let l = total-member (λ f. holding_weight f.stage) s.files i f g in
    let b = bit_bound s.mutex in omega arith

thread_at-IsSound :
    (maxnconn i : ℕ) (flags : Flags) (stage : Stage) (eof : Bool) (s : State)
    → Agrees flags stage
    → get_elem? s.files i ≡ some (record { flags = flags; stage = stage })
    → IsSound maxnconn s
    → Next maxnconn (thread_at i (record { flags = flags; stage = stage }) stage eof s)
unfolding thread_at
thread_at-IsSound maxnconn i flags stage eof s not_started g h = tt
thread_at-IsSound maxnconn i flags stage eof s is_connecting g h =
    changed-IsSound maxnconn i _ (record { flags = f_reading; stage = reads }) s.ndone s.mutex s g
      is_reading (refl, refl, refl, λ d. d) refl refl h
thread_at-IsSound maxnconn i flags stage false s is_reading g h = h
thread_at-IsSound maxnconn i flags stage true s is_reading g h =
    changed-IsSound maxnconn i _ (record { flags = f_done; stage = ended }) s.ndone s.mutex s g
      has_ended (refl, refl, refl, λ d. refl) refl refl h
thread_at-IsSound maxnconn i flags stage eof s has_ended g h =
    if_Next maxnconn s.mutex none _ (λ e. tt)
      (λ e.
        changed-IsSound maxnconn i _ (record { flags = f_done; stage = counting }) s.ndone true s g
          is_counting (refl, refl, refl, λ d. d) refl (let e' = ap bit e in omega (arith, e')) h)
thread_at-IsSound maxnconn i flags stage eof s is_counting g h =
    changed-IsSound maxnconn i _ (record { flags = f_done; stage = leaving }) (s.ndone + 1) s.mutex
      s g is_leaving (refl, refl, refl, λ d. d) (omega arith) refl h
thread_at-IsSound maxnconn i flags stage eof s is_leaving g h =
    changed-IsSound maxnconn i _ (record { flags = f_done; stage = terminated }) s.ndone false s g
      has_terminated (refl, refl, refl, λ d. d) refl
      (leaving_holds maxnconn i (record { flags = f_done; stage = leaving }) s g h refl) h
thread_at-IsSound maxnconn i flags stage eof s has_terminated g h = tt
thread_at-IsSound maxnconn i flags stage eof s was_joined g h = tt

thread_of-IsSound :
    (maxnconn i : ℕ) (o : Option File) (eof : Bool) (s : State)
    → get_elem? s.files i ≡ o
    → IsSound maxnconn s
    → Next maxnconn (thread_of i o eof s)
unfolding thread_at
thread_of-IsSound maxnconn i none eof s g h = tt
thread_of-IsSound maxnconn i (some f) eof s g (hu, ho, hr, hn, hb, hm, ha, hp) =
    let a : FileAgrees f = subst (At FileAgrees) g (All-get_elem? FileAgrees s.files i ha) in
    thread_at-IsSound maxnconn i f.flags f.stage eof s a g (hu, ho, hr, hn, hb, hm, ha, hp)

pub thread_step-IsSound :
    (maxnconn i : ℕ) (eof : Bool) (s : State)
    → IsSound maxnconn s
    → Next maxnconn (thread_step i eof s)
unfolding thread_step
thread_step-IsSound maxnconn i eof s h =
    thread_of-IsSound maxnconn i (get_elem? s.files i) eof s refl h

-- main goes on, with the mutex as it is; takes it; and gives it back.
pub go-IsSound :
    (maxnconn : ℕ) (place : Place) (s : State)
    → held_by_main place ≡ held_by_main s.place
    → PlaceHolds place s
    → IsSound maxnconn s
    → IsSound maxnconn (go place s)
go-IsSound maxnconn place s e p (hu, ho, hr, hn, hb, hm, ha, hp) =
    (hu, ho, hr, hn, omega arith, hm, ha, PlaceHolds-moved place place s p)
  where
    PlaceHolds-moved : (p q : Place) (s : State) → PlaceHolds p s → PlaceHolds p (go q s)
    PlaceHolds-moved top q s h = tt
    PlaceHolds-moved starting q s h = tt
    PlaceHolds-moved locking q s h = tt
    PlaceHolds-moved checking q s h = tt
    PlaceHolds-moved sleeping q s h = tt
    PlaceHolds-moved over q s h = h
    PlaceHolds-moved nothing_found q s h = h
    PlaceHolds-moved (scanning i) q s h = tt
    PlaceHolds-moved (joining i) q s h = h

pub lock-IsSound :
    (maxnconn : ℕ) (s : State)
    → held_by_main s.place ≡ 0
    → IsSound maxnconn s
    → Next maxnconn (lock checking s)
lock-IsSound maxnconn s e (hu, ho, hr, hn, hb, hm, ha, hp) =
    if_Next maxnconn s.mutex none _ (λ b. tt)
      (λ b. (hu, ho, hr, hn, let b' = ap bit b in omega arith, hm, ha, tt))

pub unlock-IsSound :
    (maxnconn : ℕ) (place : Place) (s : State)
    → held_by_main s.place ≡ 1
    → held_by_main place ≡ 0
    → PlaceHolds place (record s { mutex = false; place = place })
    → IsSound maxnconn s
    → IsSound maxnconn (record s { mutex = false; place = place })
unlock-IsSound maxnconn place s e z p (hu, ho, hr, hn, hb, hm, ha, hp) =
    let b = bit_bound s.mutex in (hu, ho, hr, hn, omega arith, hm, ha, p)
