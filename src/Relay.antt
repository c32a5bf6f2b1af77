-- ===== src/Relay.antt =====
-- `str_cli` of unpv1e3/nonblock/strclinonb.c: standard input to a socket and the socket to standard
-- output, without blocking, through two buffers. Here are the buffers and one round of the loop.
pub mod Buffers
pub mod Laws
pub mod Rounds
use unix_network_programming.Base.{
  ℕ, zero, suc, ◌+◌, ◌-◌, List, [], ◌∷◌, ◌++◌, Bool, true, false, not, ◌&&◌, ◌||◌, ◌==◌, ltb,
  if◌then◌else◌, take, drop, length,
}

-- MAXLINE
abbrev pub maxline : ℕ
maxline = 4096

-- A buffer of MAXLINE bytes: `start` is the offset of tooptr or froptr, and `held` are the bytes
-- between it and toiptr or friptr.
pub record Buffer : Type 0 where
  pub start : ℕ
  pub held : List ℕ

abbrev pub room : Buffer → ℕ
room b = maxline - (b.start + length b.held)

-- What read answers: some bytes, or none at the end of file; EWOULDBLOCK; or another error.
pub data ReadAnswer : Type 0 where
  got : List ℕ → ReadAnswer
  read_blocks read_fails : ReadAnswer

-- What write answers: how many bytes it took.
pub data WriteAnswer : Type 0 where
  wrote : ℕ → WriteAnswer
  write_blocks write_fails : WriteAnswer

-- What the system answers in one round: the descriptors that Select finds ready, and the calls.
pub record Answers : Type 0 where
  pub stdin_ready : Bool
  pub socket_readable : Bool
  pub socket_writable : Bool
  pub stdout_ready : Bool
  pub stdin_read : ReadAnswer
  pub socket_read : ReadAnswer
  pub stdout_write : WriteAnswer
  pub socket_write : WriteAnswer

-- The variables, and what was read and written so far; `fins` counts the calls of Shutdown.
pub record Client : Type 0 where
  pub to : Buffer
  pub fr : Buffer
  pub stdineof : Bool
  pub from_stdin : List ℕ
  pub to_socket : List ℕ
  pub from_socket : List ℕ
  pub to_stdout : List ℕ
  pub fins : ℕ

-- A round goes on, `str_cli` returns, or the process ends.
pub data Outcome : Type 0 where
  continues : Client → Outcome
  returns : Client → Outcome
  exits : Outcome

abbrev pub empty_buffer : Buffer
empty_buffer = record { start = 0; held = [] }

abbrev pub initial : Client
initial = record {
  to = empty_buffer;
  fr = empty_buffer;
  stdineof = false;
  from_stdin = [];
  to_socket = [];
  from_socket = [];
  to_stdout = [];
  fins = 0;
}

abbrev pub is_empty : List ℕ → Bool
is_empty [] = true
is_empty (b ∷ bs) = false

-- toiptr += n
abbrev pub fill : List ℕ → Buffer → Buffer
fill bs b = record b { held = b.held ++ bs }

-- tooptr += nwritten, and back to the beginning of the buffer where all is written.
abbrev pub empty_by : ℕ → Buffer → Buffer
empty_by k b =
    if is_empty (drop k b.held)
    then empty_buffer
    else record { start = b.start + k; held = drop k b.held }

abbrev pub shutdown_if : Bool → Client → Client
shutdown_if b c = record c { fins = if b then c.fins + 1 else c.fins }

-- The descriptor sets that are given to Select.
abbrev pub wants_stdin : Client → Bool
wants_stdin c = not c.stdineof && ltb 0 (room c.to)

abbrev pub wants_socket : Client → Bool
wants_socket c = ltb 0 (room c.fr)

-- The read from standard input, and whether the socket is tried below.
pub read_stdin : ReadAnswer → Client → Bool → (Client → Bool → Outcome) → Outcome
read_stdin read_fails c w next = exits
read_stdin read_blocks c w next = next c w
read_stdin (got []) c w next =
    next (shutdown_if (is_empty c.to.held) (record c { stdineof = true })) w
read_stdin (got (b ∷ bs)) c w next =
    let n = take (room c.to) (b ∷ bs) in
    next (record c { to = fill n c.to; from_stdin = c.from_stdin ++ n }) true

pub read_socket : ReadAnswer → Client → Bool → (Client → Bool → Outcome) → Outcome
read_socket read_fails c w next = exits
read_socket read_blocks c w next = next c w
read_socket (got []) c w next = if c.stdineof then returns c else exits
read_socket (got (b ∷ bs)) c w next =
    let n = take (room c.fr) (b ∷ bs) in
    next (record c { fr = fill n c.fr; from_socket = c.from_socket ++ n }) true

pub write_stdout : WriteAnswer → Client → (Client → Outcome) → Outcome
write_stdout write_fails c next = exits
write_stdout write_blocks c next = next c
write_stdout (wrote k) c next =
    next (record c { fr = empty_by k c.fr; to_stdout = c.to_stdout ++ take k c.fr.held })

pub write_socket : WriteAnswer → Client → Outcome
write_socket write_fails c = exits
write_socket write_blocks c = continues c
write_socket (wrote k) c =
    let sent = record c { to = empty_by k c.to; to_socket = c.to_socket ++ take k c.to.held } in
    continues (shutdown_if (is_empty sent.to.held && c.stdineof) sent)

-- The last two parts of the loop, where the sets of Select have the socket and standard output.
abbrev pub write_parts : Answers → Bool → Bool → Client → Outcome
write_parts a socket stdout c =
    let last : Client → Outcome = λ d.
      if socket && not (is_empty d.to.held) then write_socket a.socket_write d else continues d in
    if stdout && not (is_empty c.fr.held) then write_stdout a.stdout_write c last else last c

abbrev pub socket_part : Answers → Bool → Bool → Bool → Client → Bool → Outcome
socket_part a readable stdout socket c socket' =
    let socket_set = socket || socket' in
    let go_on : Client → Bool → Outcome = λ d w. write_parts a socket_set (stdout || w) d in
    if readable then read_socket a.socket_read c false go_on else go_on c false

-- One round of the loop.
unfoldable pub round : Answers → Client → Outcome
unfolding read_stdin read_socket write_stdout write_socket
round a c =
    let readable = a.socket_readable && wants_socket c in
    let socket = a.socket_writable && not (is_empty c.to.held) in
    let stdout = a.stdout_ready && not (is_empty c.fr.held) in
    if a.stdin_ready && wants_stdin c
    then read_stdin a.stdin_read c false (socket_part a readable stdout socket)
    else socket_part a readable stdout socket c false

-- The loop, for the answers of as many rounds.
pub rounds : List Answers → Outcome → Outcome
unfolding round
rounds [] o = o
rounds (a ∷ rest) (continues c) = rounds rest (round a c)
rounds (a ∷ rest) (returns c) = returns c
rounds (a ∷ rest) exits = exits

unfoldable pub str_cli : List Answers → Outcome
unfolding rounds
str_cli answers = rounds answers (continues initial)
