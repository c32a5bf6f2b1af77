-- ===== src/Threads/Steps.antt =====
-- The steps of `main` and of the threads of Threads, one at a time, in any order.
use unix_network_programming.Base.{ℕ, ◌≡◌, Bool, some}
use unix_network_programming.Threads.{State, initial, main_step, thread_step}

pub data Step (maxnconn : ℕ) : State → State → Type 0 where
  main : (s t : State) → main_step maxnconn s ≡ some t → Step maxnconn s t
  thread : (s t : State) (i : ℕ) (eof : Bool) → thread_step i eof s ≡ some t → Step maxnconn s t

pub data Steps (maxnconn : ℕ) : State → State → Type 0 where
  here : (s : State) → Steps maxnconn s s
  then_step : (s t u : State) → Steps maxnconn s t → Step maxnconn t u → Steps maxnconn s u

-- The states that the program comes to with so many files.
abbrev pub Reachable : ℕ → ℕ → State → Type 0
Reachable maxnconn nfiles s = Steps maxnconn (initial nfiles) s
