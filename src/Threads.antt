-- ===== src/Threads.antt =====
-- unpv1e3/threads/web03.c: `main` starts a thread for each file, up to `maxnconn` at a time, and joins
-- those that are done. The calls on the network, the mutex and the threads succeed.
pub mod Steps
pub mod Invariant
pub mod Safety
pub mod Deadlock
use unix_network_programming.Base.{
  ℕ, zero, suc, ◌+◌, ◌-◌, List, [], ◌∷◌, Bool, true, false, ◌&&◌, Option, none, some, ltb, leb,
  ◌==◌, if◌then◌else◌, get_elem?, set, length, replicate, holds_at,
}

-- f_flags: 0, and the four that are set, of which only one is set at a time.
pub data Flags : Type 0 where
  f_none f_connecting f_reading f_done f_joined : Flags

-- do_get_read: before it sets F_READING, in the loop over Read, behind F_DONE, with the mutex before
-- ndone++, with the mutex behind it, and returned. Before, there is no thread.
pub data Stage : Type 0 where
  absent connects reads ended counting leaving terminated : Stage

pub record File : Type 0 where
  pub flags : Flags
  pub stage : Stage

-- main: at `while (nlefttoread > 0)`, at the loop that starts threads, at Pthread_mutex_lock, at
-- `while (ndone == 0)`, in Pthread_cond_wait, in the loop over the files at one of them, in
-- Pthread_join for one, behind exit(0), and behind err_quit.
pub data Place : Type 0 where
  top starting locking checking sleeping over nothing_found : Place
  scanning joining : ℕ → Place

-- `mutex` is true where somebody holds ndone_mutex.
pub record State : Type 0 where
  pub files : List File
  pub nconn : ℕ
  pub nlefttoconn : ℕ
  pub nlefttoread : ℕ
  pub ndone : ℕ
  pub mutex : Bool
  pub place : Place

-- nfiles files.
abbrev pub initial : ℕ → State
initial nfiles = record {
  files = replicate nfiles (record { flags = f_none; stage = absent });
  nconn = 0;
  nlefttoconn = nfiles;
  nlefttoread = nfiles;
  ndone = 0;
  mutex = false;
  place = top;
}

abbrev pub go : Place → State → State
go place s = record s { place = place }

abbrev pub is_unused : Flags → Bool
is_unused f_none = true
is_unused f_connecting = false
is_unused f_reading = false
is_unused f_done = false
is_unused f_joined = false

abbrev pub is_done : Flags → Bool
is_done f_none = false
is_done f_connecting = false
is_done f_reading = false
is_done f_done = true
is_done f_joined = false

abbrev pub is_terminated : Stage → Bool
is_terminated absent = false
is_terminated connects = false
is_terminated reads = false
is_terminated ended = false
is_terminated counting = false
is_terminated leaving = false
is_terminated terminated = true

abbrev pub one_up : Option ℕ → Option ℕ
one_up none = none
one_up (some i) = some (suc i)

-- The first file that is not started.
pub find : List File → Option ℕ
find [] = none
find (f ∷ fs) = let rest = one_up (find fs) in if is_unused f.flags then some 0 else rest

-- Pthread_create for the file that was found.
abbrev pub start : Option ℕ → State → State
start none s = go nothing_found s
start (some i) s = record s {
  files = set s.files i (record { flags = f_connecting; stage = connects });
  nconn = s.nconn + 1;
  nlefttoconn = s.nlefttoconn - 1;
}

-- Behind Pthread_join.
abbrev pub join : ℕ → State → State
join i s = record s {
  files = set s.files i (record { flags = f_joined; stage = terminated });
  ndone = s.ndone - 1;
  nconn = s.nconn - 1;
  nlefttoread = s.nlefttoread - 1;
  place = scanning (suc i);
}

-- Whom the mutex is free for.
abbrev pub lock : Place → State → Option State
lock place s = if s.mutex then none else some (record s { mutex = true; place = place })

abbrev pub scan : ℕ → State → State
scan i s =
    if ltb i (length s.files)
    then (if holds_at (λ f. is_done f.flags) (get_elem? s.files i)
        then go (joining i) s
        else go (scanning (suc i)) s)
    else record s { mutex = false; place = top }

-- What main does next; `none` where it has to wait or has ended. Pthread_cond_wait may return at
-- any time, with the mutex.
pub main_at : ℕ → Place → State → Option State
unfolding find
main_at maxnconn top s = some (go (if leb s.nlefttoread 0 then over else starting) s)
main_at maxnconn starting s =
    if ltb s.nconn maxnconn && ltb 0 s.nlefttoconn
    then some (start (find s.files) s)
    else some (go locking s)
main_at maxnconn locking s = lock checking s
main_at maxnconn checking s =
    if s.ndone == 0
    then some (record s { mutex = false; place = sleeping })
    else some (go (scanning 0) s)
main_at maxnconn sleeping s = lock checking s
main_at maxnconn (scanning i) s = some (scan i s)
main_at maxnconn (joining i) s =
    if holds_at (λ f. is_terminated f.stage) (get_elem? s.files i) then some (join i s) else none
main_at maxnconn over s = none
main_at maxnconn nothing_found s = none

unfoldable pub main_step : ℕ → State → Option State
unfolding main_at
main_step maxnconn s = main_at maxnconn s.place s

abbrev pub move : ℕ → File → State → State
move i f s = record s { files = set s.files i f }

-- do_get_read for the file `f` at the place `i`; `eof` is whether the next Read returns 0.
pub thread_at : ℕ → File → Stage → Bool → State → Option State
thread_at i f absent eof s = none
thread_at i f connects eof s = some (move i (record { flags = f_reading; stage = reads }) s)
thread_at i f reads false s = some s
thread_at i f reads true s = some (move i (record { flags = f_done; stage = ended }) s)
thread_at i f ended eof s =
    if s.mutex
    then none
    else some (record (move i (record f { stage = counting }) s) { mutex = true })
thread_at i f counting eof s =
    some (record (move i (record f { stage = leaving }) s) { ndone = s.ndone + 1 })
thread_at i f leaving eof s =
    some (record (move i (record f { stage = terminated }) s) { mutex = false })
thread_at i f terminated eof s = none

abbrev pub thread_of : ℕ → Option File → Bool → State → Option State
unfolding thread_at
thread_of i none eof s = none
thread_of i (some f) eof s = thread_at i f f.stage eof s

unfoldable pub thread_step : ℕ → Bool → State → Option State
unfolding thread_at
thread_step i eof s = thread_of i (get_elem? s.files i) eof s
