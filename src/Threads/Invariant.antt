-- ===== src/Threads/Invariant.antt =====
-- The counters, the flags, the mutex and the place of `main` of Threads in agreement.
use unix_network_programming.Base.{
  ℕ, ◌+◌, ◌≤◌, ◌≡◌, Bool, true, false, get_elem?, holds_at, total, All,
}
use unix_network_programming.Threads.{
  Flags, f_none, f_connecting, f_reading, f_done, f_joined, Stage, absent, connects, reads, ended,
  counting, leaving, terminated, File, Place, top, starting, locking, checking, sleeping, over,
  nothing_found, scanning, joining, State, is_done,
}

-- The flag and the stage that a file can have together.
pub data Agrees : Flags → Stage → Type 0 where
  not_started : Agrees f_none absent
  is_connecting : Agrees f_connecting connects
  is_reading : Agrees f_reading reads
  has_ended : Agrees f_done ended
  is_counting : Agrees f_done counting
  is_leaving : Agrees f_done leaving
  has_terminated : Agrees f_done terminated
  was_joined : Agrees f_joined terminated

abbrev pub FileAgrees : File → Type 0
FileAgrees f = Agrees f.flags f.stage

-- 1 for a file that is not started, for one that has a connection, for one that is not joined, for
-- one that ndone counts, and for one whose thread has the mutex.
abbrev pub unused_weight : Flags → ℕ
unused_weight f_none = 1
unused_weight f_connecting = 0
unused_weight f_reading = 0
unused_weight f_done = 0
unused_weight f_joined = 0

abbrev pub open_weight : Flags → ℕ
open_weight f_none = 0
open_weight f_connecting = 1
open_weight f_reading = 1
open_weight f_done = 1
open_weight f_joined = 0

abbrev pub unread_weight : Flags → ℕ
unread_weight f_none = 1
unread_weight f_connecting = 1
unread_weight f_reading = 1
unread_weight f_done = 1
unread_weight f_joined = 0

abbrev pub behind_count : Stage → ℕ
behind_count absent = 0
behind_count connects = 0
behind_count reads = 0
behind_count ended = 0
behind_count counting = 0
behind_count leaving = 1
behind_count terminated = 1

abbrev pub counted_weight : Flags → Stage → ℕ
counted_weight f_none stage = 0
counted_weight f_connecting stage = 0
counted_weight f_reading stage = 0
counted_weight f_done stage = behind_count stage
counted_weight f_joined stage = 0

abbrev pub holding_weight : Stage → ℕ
holding_weight absent = 0
holding_weight connects = 0
holding_weight reads = 0
holding_weight ended = 0
holding_weight counting = 1
holding_weight leaving = 1
holding_weight terminated = 0

abbrev pub held_by_main : Place → ℕ
held_by_main top = 0
held_by_main starting = 0
held_by_main locking = 0
held_by_main checking = 1
held_by_main sleeping = 0
held_by_main over = 0
held_by_main nothing_found = 0
held_by_main (scanning i) = 1
held_by_main (joining i) = 1

abbrev pub bit : Bool → ℕ
bit true = 1
bit false = 0

-- main joins a thread only behind F_DONE, ends with all files joined, and finds a file to start.
abbrev pub PlaceHolds : Place → State → Type 0
PlaceHolds top s = Unit
PlaceHolds starting s = Unit
PlaceHolds locking s = Unit
PlaceHolds checking s = Unit
PlaceHolds sleeping s = Unit
PlaceHolds over s = total (λ f. unread_weight f.flags) s.files ≡ 0
PlaceHolds nothing_found s = ⊥
PlaceHolds (scanning i) s = Unit
PlaceHolds (joining i) s = holds_at (λ f. is_done f.flags) (get_elem? s.files i) ≡ true

abbrev pub unused_files : State → ℕ
unused_files s = total (λ f. unused_weight f.flags) s.files

abbrev pub open_files : State → ℕ
open_files s = total (λ f. open_weight f.flags) s.files

abbrev pub unread_files : State → ℕ
unread_files s = total (λ f. unread_weight f.flags) s.files

abbrev pub counted_files : State → ℕ
counted_files s = total (λ f. counted_weight f.flags f.stage) s.files

abbrev pub holding_files : State → ℕ
holding_files s = total (λ f. holding_weight f.stage) s.files

abbrev pub IsSound : ℕ → State → Type 0
IsSound maxnconn s =
    (s.nlefttoconn ≡ unused_files s)
    × (s.nconn ≡ open_files s)
    × (s.nlefttoread ≡ unread_files s)
    × (s.ndone ≡ counted_files s)
    × (holding_files s + held_by_main s.place ≡ bit s.mutex)
    × (s.nconn ≤ maxnconn)
    × All FileAgrees s.files
    × PlaceHolds s.place s
