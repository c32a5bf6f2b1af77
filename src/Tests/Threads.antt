-- ===== src/Tests/Threads.antt =====
-- Threads with one file, and with two, of whose threads `main` overtakes one.
use unix_network_programming.Base.{
  ℕ, ◌≡◌, refl, List, [], ◌∷◌, true, Option, some, none, get_elem?, holds_at, inl, inr, subst, sym,
  ap, ◌∙◌, ◌++◌, replicate, Option-cases,
}
use mathlib.Core.Option.{some-injective, none-ne-some}
use unix_network_programming.Threads.{
  f_joined, f_done, ended, terminated, Place, over, joining, State, initial, main_step, thread_step,
}
use unix_network_programming.Threads.Steps.{Step, main, thread, Steps, here, then_step, Reachable}
use unix_network_programming.Threads.Invariant.{IsSound}
use unix_network_programming.Threads.Safety.Main.{Reachable-IsSound}
use unix_network_programming.Threads.Deadlock.{has_ended, main_joins_for_ever}

-- A step of main, or of a thread whose Read returns 0.
abbrev turn : ℕ → Option ℕ → State → Option State
turn maxnconn none s = main_step maxnconn s
turn maxnconn (some i) s = thread_step i true s

abbrev bind : Option State → (State → Option State) → Option State
bind none f = none
bind (some s) f = f s

abbrev run : ℕ → List (Option ℕ) → State → Option State
run maxnconn [] s = some s
run maxnconn (t ∷ ts) s = bind (turn maxnconn t s) (run maxnconn ts)

turn-Step :
    (maxnconn : ℕ) (o : Option ℕ) (s t : State) → turn maxnconn o s ≡ some t → Step maxnconn s t
turn-Step maxnconn none s t e = main s t e
turn-Step maxnconn (some i) s t e = thread s t i true e

run-Steps :
    (maxnconn : ℕ) (ts : List (Option ℕ)) (s t u : State)
    → Steps maxnconn s t
    → run maxnconn ts t ≡ some u
    → Steps maxnconn s u
run-Steps maxnconn [] s t u r e = subst (Steps maxnconn s) (some-injective t u e) r
run-Steps maxnconn (o ∷ ts) s t u r e = elim (Option-cases (turn maxnconn o t)) [
  | inl n ↦ absurd (none-ne-some u (ap (λ q. bind q (run maxnconn ts)) (sym n) ∙ e))
  | inr (v, n) ↦
      run-Steps maxnconn ts s v u (then_step s t v r (turn-Step maxnconn o t v n))
        (ap (λ q. bind q (run maxnconn ts)) (sym n) ∙ e)
]

abbrev times : ℕ → Option ℕ → List (Option ℕ)
times n o = replicate n o

abbrev place_of : Option State → Option Place
place_of none = none
place_of (some s) = some s.place

-- main waits, the thread ends, and main joins it and exits.
waits : place_of (run 1 (times 5 none ++ times 5 (some 0) ++ times 6 none) (initial 1)) ≡ some over
unfolding main_step thread_step
waits = refl

-- main wakes for the first thread, and meets the second behind F_DONE.
abbrev meeting : List (Option ℕ)
meeting = times 6 none ++ times 5 (some 0) ++ times 2 none ++ times 2 (some 1) ++ times 3 none

abbrev met : State
met = record {
  files =
      record { flags = f_joined; stage = terminated }
      ∷ record { flags = f_done; stage = ended }
      ∷ [];
  nconn = 1;
  nlefttoconn = 0;
  nlefttoread = 1;
  ndone = 0;
  mutex = true;
  place = joining 1;
}

meets : run 2 meeting (initial 2) ≡ some met
unfolding main_step thread_step
meets = refl

met-Reachable : Reachable 2 2 met
met-Reachable = run-Steps 2 meeting (initial 2) (initial 2) met (here (initial 2)) meets

Reachable-IsSound_example : IsSound 2 met
Reachable-IsSound_example = Reachable-IsSound 2 2 met met-Reachable

main_joins_for_ever_example :
    (met.place ≡ joining 1) × (holds_at has_ended (get_elem? met.files 1) ≡ true)
main_joins_for_ever_example = main_joins_for_ever 2 2 1 met met met-Reachable refl refl (here met)
