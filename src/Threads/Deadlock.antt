-- ===== src/Threads/Deadlock.antt =====
-- `main` of Threads joins a thread with the mutex in its hand, which that thread may still want.
use unix_network_programming.Base.{
  ℕ, ◌≡◌, refl, sym, ap, subst, Bool, true, false, Option, none, some, if◌then◌else◌, get_elem?,
  holds_at, holds_at_elim, holds_at-set, arith, Bool-cases, inl, inr,
}
use unix_network_programming.Threads.{
  Stage, absent, connects, reads, ended, counting, leaving, terminated, File, Place, joining, State,
  is_terminated, main_at, main_step, thread_at, thread_of, thread_step,
}
use unix_network_programming.Threads.Steps.{Step, main, thread, Steps, here, then_step, Reachable}
use unix_network_programming.Threads.Invariant.{held_by_main, bit, IsSound}
use unix_network_programming.Threads.Safety.Main.{Steps-IsSound, Reachable-IsSound}

-- Behind F_DONE, and still without the mutex.
abbrev pub is_ended : Stage → Bool
is_ended absent = false
is_ended connects = false
is_ended reads = false
is_ended ended = true
is_ended counting = false
is_ended leaving = false
is_ended terminated = false

abbrev pub has_ended : File → Bool
has_ended f = is_ended f.stage

abbrev pub IsStuck : ℕ → State → Type 0
IsStuck i s = (s.place ≡ joining i) × (holds_at has_ended (get_elem? s.files i) ≡ true)

abbrev pub StaysStuck : ℕ → Option State → Type 0
StaysStuck i none = Unit
StaysStuck i (some t) = IsStuck i t

if_StaysStuck :
    (i : ℕ) (b : Bool) (x y : Option State)
    → (b ≡ true → StaysStuck i x)
    → (b ≡ false → StaysStuck i y)
    → StaysStuck i (if b then x else y)
if_StaysStuck i true x y h k = h refl
if_StaysStuck i false x y h k = k refl

-- A thread that has ended is none that has returned.
is_ended-is_terminated : (stage : Stage) → is_ended stage ≡ true → is_terminated stage ≡ false
is_ended-is_terminated absent h = refl
is_ended-is_terminated connects h = refl
is_ended-is_terminated reads h = refl
is_ended-is_terminated ended h = refl
is_ended-is_terminated counting h = refl
is_ended-is_terminated leaving h = refl
is_ended-is_terminated terminated h = ground arith

main_at-StaysStuck :
    (maxnconn i : ℕ) (place : Place) (s : State)
    → place ≡ joining i
    → IsStuck i s
    → StaysStuck i (main_at maxnconn place s)
unfolding main_at
main_at-StaysStuck maxnconn i place s e (p, h) =
    subst (λ q. StaysStuck i (main_at maxnconn q s)) (sym e)
      (if_StaysStuck i (holds_at (λ f. is_terminated f.stage) (get_elem? s.files i)) _ none
        (λ t.
          let (f, g, k) = holds_at_elim has_ended (get_elem? s.files i) h in
          let t' = subst (λ o. holds_at (λ f. is_terminated f.stage) o ≡ true) g t in
          let n = is_ended-is_terminated f.stage k in absurd (ground arith))
        (λ t. tt))

-- The mutex is main's, so no thread that has ended goes on; the others leave it as it is.
thread_at-StaysStuck :
    (i j : ℕ) (f : File) (stage : Stage) (eof : Bool) (s : State)
    → f.stage ≡ stage
    → get_elem? s.files j ≡ some f
    → s.mutex ≡ true
    → IsStuck i s
    → StaysStuck i (thread_at j f stage eof s)
unfolding thread_at
thread_at-StaysStuck i j f absent eof s e g m h = tt
thread_at-StaysStuck i j f connects eof s e g m (p, h) = (
  p,
  holds_at-set has_ended s.files i j f _ g
      (λ k. let k' = subst (λ st. is_ended st ≡ true) e k in ground arith) h,
)
thread_at-StaysStuck i j f reads false s e g m h = h
thread_at-StaysStuck i j f reads true s e g m (p, h) =
    (p, holds_at-set has_ended s.files i j f _ g (λ k. refl) h)
thread_at-StaysStuck i j f ended eof s e g m h =
    if_StaysStuck i s.mutex none _ (λ b. tt) (λ b. absurd (ground arith))
thread_at-StaysStuck i j f counting eof s e g m (p, h) = (
  p,
  holds_at-set has_ended s.files i j f _ g
      (λ k. let k' = subst (λ st. is_ended st ≡ true) e k in ground arith) h,
)
thread_at-StaysStuck i j f leaving eof s e g m (p, h) = (
  p,
  holds_at-set has_ended s.files i j f _ g
      (λ k. let k' = subst (λ st. is_ended st ≡ true) e k in ground arith) h,
)
thread_at-StaysStuck i j f terminated eof s e g m h = tt

thread_of-StaysStuck :
    (i j : ℕ) (o : Option File) (eof : Bool) (s : State)
    → get_elem? s.files j ≡ o
    → s.mutex ≡ true
    → IsStuck i s
    → StaysStuck i (thread_of j o eof s)
unfolding thread_at
thread_of-StaysStuck i j none eof s g m h = tt
thread_of-StaysStuck i j (some f) eof s g m h = thread_at-StaysStuck i j f f.stage eof s refl g m h

mutex_held :
    (maxnconn i : ℕ) (s : State) → IsSound maxnconn s → s.place ≡ joining i → s.mutex ≡ true
mutex_held maxnconn i s (hu, ho, hr, hn, hb, hm, ha, hp) e =
    let w = ap held_by_main e in
    elim (Bool-cases s.mutex) [ inl m ↦ m | inr m ↦ let z = ap bit m in absurd (omega arith) ]

Step-IsStuck :
    (maxnconn i : ℕ) (s t : State)
    → Step maxnconn s t
    → IsSound maxnconn s
    → IsStuck i s
    → IsStuck i t
unfolding main_step thread_step
Step-IsStuck maxnconn i s t (main s' t' e) h (p, k) =
    subst (StaysStuck i) e (main_at-StaysStuck maxnconn i s.place s p (p, k))
Step-IsStuck maxnconn i s t (thread s' t' j eof e) h (p, k) =
    subst (StaysStuck i) e (
      thread_of-StaysStuck i j (get_elem? s.files j) eof s refl (mutex_held maxnconn i s h p)
        (p, k))

Steps-IsStuck :
    (maxnconn i : ℕ) (s t : State)
    → Steps maxnconn s t
    → IsSound maxnconn s
    → IsStuck i s
    → IsStuck i t
Steps-IsStuck maxnconn i s t (here s') h k = k
Steps-IsStuck maxnconn i s u (then_step s' t u' r q) h k =
    Step-IsStuck maxnconn i t u q (Steps-IsSound maxnconn s t r h)
      (Steps-IsStuck maxnconn i s t r h k)

-- Where main has come to join a thread that has set F_DONE and has not yet taken the mutex, main waits
-- for that thread for ever, and that thread for the mutex.
pub main_joins_for_ever :
    (maxnconn nfiles i : ℕ) (s t : State)
    → Reachable maxnconn nfiles s
    → s.place ≡ joining i
    → holds_at has_ended (get_elem? s.files i) ≡ true
    → Steps maxnconn s t
    → (t.place ≡ joining i) × (holds_at has_ended (get_elem? t.files i) ≡ true)
main_joins_for_ever maxnconn nfiles i s t r p h k =
    Steps-IsStuck maxnconn i s t k (Reachable-IsSound maxnconn nfiles s r) (p, h)
