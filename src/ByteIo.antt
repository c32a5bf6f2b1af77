-- ===== src/ByteIo.antt =====
-- What `read` and `write` do on a descriptor, as far as unpv1e3/lib uses them.
--
-- The answers of the kernel to successive `read` calls are a list of arrivals, consumed from the
-- front. An arrival that is longer than the call asks for is cut, and the rest stays for the next
-- call, so that a call never returns more than it asked for; an empty chunk, or the end of the
-- list, is an end of file; a failure carries its `errno`.
-- The answers to `write` are a list of acceptances; where the list ends, a call is accepted whole.
pub mod Readn
pub mod Writen
pub mod Readline
use unix_network_programming.Base.{
  ℕ, suc, ◌+◌, ◌≤◌, ◌≡◌, refl, List, [], ◌∷◌, ◌++◌, append_assoc, arith, ◌==◌, if◌then◌else◌,
  length, take, drop, min,
}

-- The `errno` of an interrupted system call.
abbrev pub eintr : ℕ
eintr = 4

pub data Arrival : Type 0 where
  chunk : List ℕ → Arrival
  failure : ℕ → Arrival

pub data ReadResult : Type 0 where
  got : List ℕ → ReadResult
  failed : ℕ → ReadResult

-- What is left of a chunk stands in front of the later arrivals.
abbrev pub put_back : List ℕ → List Arrival → List Arrival
put_back [] s = s
put_back (b ∷ bs) s = chunk (b ∷ bs) ∷ s

unfoldable pub read : ℕ → List Arrival → ReadResult × List Arrival
read n [] = (got [], [])
read n (failure e ∷ s) = (failed e, s)
read n (chunk bs ∷ s) = (got (take n bs), put_back (drop n bs) s)

-- The bytes that arrive before the end of file or the first failure that is no interruption.
abbrev pub incoming : List Arrival → List ℕ
incoming [] = []
incoming (failure e ∷ s) = let rest = incoming s in if e == eintr then rest else []
incoming (chunk [] ∷ s) = []
incoming (chunk (b ∷ bs) ∷ s) = (b ∷ bs) ++ incoming s

pub data Ending : Type 0 where
  eof : Ending
  broken : ℕ → Ending

-- How the stream ends behind those bytes.
abbrev pub ending : List Arrival → Ending
ending [] = eof
ending (failure e ∷ s) = let rest = ending s in if e == eintr then rest else broken e
ending (chunk [] ∷ s) = eof
ending (chunk (b ∷ bs) ∷ s) = ending s

-- A bound on the calls that a stream can answer before its end.
abbrev pub size : List Arrival → ℕ
size [] = 0
size (failure e ∷ s) = suc (size s)
size (chunk bs ∷ s) = suc (length bs + size s)

pub incoming-put_back :
    (bs : List ℕ) (s : List Arrival) → incoming (put_back bs s) ≡ bs ++ incoming s
incoming-put_back [] s = refl
incoming-put_back (b ∷ bs) s = refl

pub ending-put_back : (bs : List ℕ) (s : List Arrival) → ending (put_back bs s) ≡ ending s
ending-put_back [] s = refl
ending-put_back (b ∷ bs) s = refl

pub size-put_back :
    (bs : List ℕ) (s : List Arrival) → size (put_back bs s) ≤ suc (length bs + size s)
size-put_back [] s = omega arith
size-put_back (b ∷ bs) s = omega arith

pub data Acceptance : Type 0 where
  took : ℕ → Acceptance
  refused : ℕ → Acceptance

pub data WriteResult : Type 0 where
  wrote : ℕ → WriteResult
  write_failed : ℕ → WriteResult

unfoldable pub write : ℕ → List Acceptance → WriteResult × List Acceptance
write n [] = (wrote n, [])
write n (took k ∷ s) = (wrote (min k n), s)
write n (refused e ∷ s) = (write_failed e, s)
