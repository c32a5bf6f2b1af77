-- ===== src/ByteIo/Readline.antt =====
-- `my_read`, `readline`, `readlinebuf` and `Readline` of unpv1e3/lib/readline.c.
pub mod Fetch
pub mod Laws
use unix_network_programming.Base.{
  ℕ, zero, suc, ◌+◌, ◌-◌, List, [], ◌∷◌, ◌++◌, ◌==◌, if◌then◌else◌, length,
}
use unix_network_programming.ByteIo.{Arrival, chunk, failure, ReadResult, got, failed, read, eintr}

abbrev pub maxline : ℕ
maxline = 4096

abbrev pub newline : ℕ
newline = 10

-- `held bs`: `read_cnt` is the length of `bs`, and `read_ptr` points at them.
-- `minus_one`: `read_cnt` is -1, as a failed `read` leaves it.
pub data ReadBuf : Type 0 where
  held : List ℕ → ReadBuf
  minus_one : ReadBuf

-- `my_read` returns 1 with a byte, 0 at the end of file, -1 with `errno`.
pub data Answer : Type 0 where
  byte : ℕ → Answer
  at_eof : Answer
  sys_error : ℕ → Answer

pub record Fetched : Type 0 where
  pub answer : Answer
  pub buf : ReadBuf
  pub stream : List Arrival

-- What the buffer holds after a `read` that was not interrupted.
abbrev pub filled : ReadResult → List Arrival → Fetched
filled (failed e) s = record { answer = sys_error e; buf = minus_one; stream = s }
filled (got []) s = record { answer = at_eof; buf = held []; stream = s }
filled (got (b ∷ bs)) s = record { answer = byte b; buf = held bs; stream = s }

-- `again:`, a call after each interruption.
pub refill : List Arrival → Fetched
refill [] = let (answer, rest) = read maxline [] in filled answer rest
refill (failure e ∷ s) =
    let (answer, rest) = read maxline (failure e ∷ s) in
    if e == eintr then refill s else filled answer rest
refill (chunk bs ∷ s) = let (answer, rest) = read maxline (chunk bs ∷ s) in filled answer rest

pub my_read : ReadBuf → List Arrival → Fetched
unfolding refill read
my_read minus_one s = refill s
my_read (held []) s = refill s
my_read (held (b ∷ bs)) s = record { answer = byte b; buf = held bs; stream = s }

-- `line buf value`: the bytes stored, the terminating null included, and the value returned.
pub data Outcome : Type 0 where
  line : List ℕ → ℕ → Outcome
  error : ℕ → Outcome

pub record Line : Type 0 where
  pub outcome : Outcome
  pub buf : ReadBuf
  pub stream : List Arrival

abbrev pub ends : Outcome → Fetched → Line
ends o f = record { outcome = o; buf = f.buf; stream = f.stream }

-- The body of the loop, on what `my_read` answered.
pub take_byte : (ℕ → List ℕ → ReadBuf → List Arrival → Line) → ℕ → List ℕ → Answer → Fetched → Line
take_byte loop n stored (byte c) f =
    let stored' = stored ++ c ∷ [] in
    if c == newline
    then ends (line (stored' ++ 0 ∷ []) n) f
    else loop (n + 1) stored' f.buf f.stream
take_byte loop n stored at_eof f = ends (line (stored ++ 0 ∷ []) (n - 1)) f
take_byte loop n stored (sys_error e) f = ends (error e) f

-- `for (n = 1; n < maxlen; n++)`, with the rounds left.
pub readline_loop : ℕ → ℕ → List ℕ → ReadBuf → List Arrival → Line
readline_loop zero n stored buf s = record {
  outcome = line (stored ++ 0 ∷ []) n;
  buf = buf;
  stream = s;
}
readline_loop (suc left) n stored buf s =
    let f = my_read buf s in take_byte (readline_loop left) n stored f.answer f

unfoldable pub readline : ℕ → ReadBuf → List Arrival → Line
unfolding readline_loop take_byte my_read
readline maxlen buf s = readline_loop (maxlen - 1) 1 [] buf s

-- `readlinebuf`: the bytes that `read_ptr` points at, where `read_cnt` is not 0.
pub data Peek : Type 0 where
  count : ℕ → List ℕ → Peek
  negative : Peek

unfoldable pub readlinebuf : ReadBuf → Peek
readlinebuf (held bs) = count (length bs) bs
readlinebuf minus_one = negative
