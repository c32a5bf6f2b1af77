-- ===== src/ByteIo/Readline/Laws.antt =====
-- `readline` against the line that the bytes of the stream begin with.
use unix_network_programming.Base.{
  ℕ, zero, suc, ◌+◌, ◌-◌, ◌≤◌, ◌<◌, ◌≡◌, refl, ap, ap₂, ◌∙◌, List, [], ◌∷◌, ◌++◌, append_assoc,
  Bool, true, false, ◌||◌, ◌⊎◌, inl, inr, ◌==◌, if◌then◌else◌, arith, Bool-cases, length, drop,
  length-append,
}
use unix_network_programming.ByteIo.{Arrival, ending, Ending, eof, broken}
use unix_network_programming.ByteIo.Readline.{
  ReadBuf, my_read, newline, Outcome, line, error, Line, take_byte, readline_loop, readline,
}
use unix_network_programming.ByteIo.Readline.Fetch.{content, HandsOut, my_read-HandsOut}

-- The bytes up to the first newline, it included, and at most `k` of them.
abbrev pub first_line : ℕ → List ℕ → List ℕ
first_line zero bs = []
first_line (suc k) [] = []
first_line (suc k) (b ∷ bs) = let rest = first_line k bs in b ∷ (if b == newline then [] else rest)

abbrev pub has_newline : List ℕ → Bool
has_newline [] = false
has_newline (b ∷ bs) = b == newline || has_newline bs

-- The outcome with `stored` bytes before: `room` more fit, and `n` is the loop's counter.
abbrev pub expected : ℕ → ℕ → List ℕ → List ℕ → Ending → Outcome
expected room n stored bs end =
    let l = first_line room bs in
    let whole = stored ++ (l ++ 0 ∷ []) in
    if has_newline l
    then line whole (n + length l - 1)
    else if length l == room
    then line whole (n + room)
    else elim end [ eof ↦ line whole (n + length l - 1) | broken e ↦ error e ]

-- Behind a line that is complete or full, the next bytes are still to come.
abbrev Consumed : ℕ → List ℕ → Line → Type 0
Consumed room bs r =
    (has_newline (first_line room bs) ≡ true) ⊎ (length (first_line room bs) ≡ room)
    → content r.buf r.stream ≡ drop (length (first_line room bs)) bs

-- A byte that is no newline moves into the stored part.
expected_step :
    (room n : ℕ) (stored : List ℕ) (b : ℕ) (bs : List ℕ) (end : Ending)
    → (b == newline) ≡ false
    → expected room (n + 1) (stored ++ b ∷ []) bs end ≡ expected (suc room) n stored (b ∷ bs) end
expected_step room n stored b bs eof h =
    ground (arith, append_assoc stored (b ∷ []) (first_line room bs ++ 0 ∷ []))
expected_step room n stored b bs (broken e) h =
    ground (arith, append_assoc stored (b ∷ []) (first_line room bs ++ 0 ∷ []))

readline_loop_lem :
    (room n : ℕ) (stored : List ℕ) (buf : ReadBuf) (s : List Arrival) (bs : List ℕ) (end : Ending)
    → content buf s ≡ bs
    → ending s ≡ end
    → ((readline_loop room n stored buf s).outcome ≡ expected room n stored bs end)
      × Consumed room bs (readline_loop room n stored buf s)
unfolding readline_loop take_byte
readline_loop_lem zero n stored buf s bs end p q =
    (ap (line (stored ++ 0 ∷ [])) (omega arith), λ _. p)
readline_loop_lem (suc room) n stored buf s [] eof p q =
    let h : HandsOut [] eof (my_read buf s) = rw (p, q) at (my_read-HandsOut buf s) in
    rw h (ground arith, ground arith)
readline_loop_lem (suc room) n stored buf s [] (broken e) p q =
    let h : HandsOut [] (broken e) (my_read buf s) = rw (p, q) at (my_read-HandsOut buf s) in
    rw h (ground arith, ground arith)
readline_loop_lem (suc room) n stored buf s (b ∷ bs) end p q =
    let h : HandsOut (b ∷ bs) end (my_read buf s) = rw (p, q) at (my_read-HandsOut buf s) in
    let f = my_read buf s in
    let (outcome, consumed) =
      readline_loop_lem room (n + 1) (stored ++ b ∷ []) f.buf f.stream bs end h.1 h.2 in
    rw h.0 (elim (Bool-cases (b == newline)) [
      | inl last ↦
          rw last (ap₂ line (append_assoc stored (b ∷ []) (0 ∷ [])) (omega arith), λ _. h.1)
      | inr more ↦ rw more (
        rw more at (outcome ∙ expected_step room n stored b bs end more),
        λ d. consumed (ground arith),
      )
    ])

-- `readline` returns the first line of what the buffer and the stream still hold, cut to
-- `maxlen - 1` bytes, and -1 only where the stream fails before the line is complete or full.
pub readline-eq-expected :
    (maxlen : ℕ) (buf : ReadBuf) (s : List Arrival)
    → (readline maxlen buf s).outcome ≡ expected (maxlen - 1) 1 [] (content buf s) (ending s)
unfolding readline
readline-eq-expected maxlen buf s =
    (readline_loop_lem (maxlen - 1) 1 [] buf s (content buf s) (ending s) refl refl).0

-- Behind a line that is complete or full, the next call finds the bytes that follow it.
pub readline_consumed :
    (maxlen : ℕ) (buf : ReadBuf) (s : List Arrival)
    → let l = first_line (maxlen - 1) (content buf s) in
      (has_newline l ≡ true) ⊎ (length l ≡ maxlen - 1)
      → content (readline maxlen buf s).buf (readline maxlen buf s).stream
        ≡ drop (length l) (content buf s)
unfolding readline
readline_consumed maxlen buf s =
    (readline_loop_lem (maxlen - 1) 1 [] buf s (content buf s) (ending s) refl refl).1

first_line_bound : (k : ℕ) (bs : List ℕ) → length (first_line k bs) ≤ k
first_line_bound zero bs = omega arith
first_line_bound (suc k) [] = omega arith
first_line_bound (suc k) (b ∷ bs) = ground (arith, first_line_bound k bs)

line_size : Outcome → ℕ
line_size (line whole v) = length whole
line_size (error e) = 0

expected_bound :
    (room : ℕ) (bs : List ℕ) (end : Ending) → line_size (expected room 1 [] bs end) ≤ room + 1
unfolding line_size
expected_bound room bs eof =
    ground (arith, length-append (first_line room bs) (0 ∷ []), first_line_bound room bs)
expected_bound room bs (broken e) =
    ground (arith, length-append (first_line room bs) (0 ∷ []), first_line_bound room bs)

-- For a buffer of `maxlen` bytes, `readline` stores at most `maxlen` bytes, the null included.
pub readline_bound :
    (maxlen : ℕ) (buf : ReadBuf) (s : List Arrival) {whole : List ℕ} {v : ℕ}
    → 0 < maxlen
    → (readline maxlen buf s).outcome ≡ line whole v
    → length whole ≤ maxlen
readline_bound maxlen buf s {whole} {v} h e =
    let fits : line_size (line whole v) ≤ maxlen - 1 + 1 =
      rw (← e, readline-eq-expected maxlen buf s)
        (expected_bound (maxlen - 1) (content buf s) (ending s)) in
    unfold line_size in omega (arith, fits)

-- Where no newline stands among the first `maxlen - 1` bytes and that many are there, `readline`
-- stores those and returns `maxlen`, one more than their number.
pub readline_overcount :
    (maxlen : ℕ) (buf : ReadBuf) (s : List Arrival)
    → 0 < maxlen
    → has_newline (first_line (maxlen - 1) (content buf s)) ≡ false
    → length (first_line (maxlen - 1) (content buf s)) ≡ maxlen - 1
    → (readline maxlen buf s).outcome
      ≡ line
          (first_line (maxlen - 1) (content buf s) ++ 0 ∷ [])
          (length (first_line (maxlen - 1) (content buf s)) + 1)
readline_overcount maxlen buf s h none_there full = readline-eq-expected maxlen buf s ∙ ground arith
