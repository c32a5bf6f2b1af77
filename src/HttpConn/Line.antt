-- ===== src/HttpConn/Line.antt =====
-- `parse_line` and `read` of http_conn.cpp.
pub mod Laws
use unix_network_programming.Base.{
  ℕ, zero, suc, ◌+◌, ◌-◌, List, [], ◌∷◌, ◌++◌, Bool, true, false, ◌&&◌, Option, none, some, ◌==◌,
  leb, ltb, if◌then◌else◌, length, take, drop, set,
}
use unix_network_programming.ByteIo.{Arrival, chunk, failure}
use unix_network_programming.HttpConn.{
  Conn, LineStatus, line_ok, line_bad, line_open, byte, read_buffer_size,
}

abbrev pub cr : ℕ
cr = 13

abbrev pub lf : ℕ
lf = 10

-- What parse_line returns, with m_checked_idx and the buffer.
pub record Parsed : Type 0 where
  pub status : LineStatus
  pub checked_idx : ℕ
  pub read_buf : List ℕ

abbrev pub parsed : LineStatus → ℕ → List ℕ → Parsed
parsed status checked_idx read_buf = record {
  status = status;
  checked_idx = checked_idx;
  read_buf = read_buf;
}

-- The loop with `left` bytes unchecked from `i` on.
unfoldable pub parse_from : ℕ → ℕ → List ℕ → Parsed
parse_from zero i buf = parsed line_open i buf
parse_from (suc left) i buf =
    let rest = parse_from left (suc i) buf in
    if byte buf i == cr
    then (if left == 0
        then parsed line_open i buf
        else if byte buf (suc i) == lf
        then parsed line_ok (suc (suc i)) (set (set buf i 0) (suc i) 0)
        else parsed line_bad i buf)
    else if byte buf i == lf
    then (if leb 1 i && byte buf (i - 1) == cr
        then parsed line_ok (suc i) (set (set buf (i - 1) 0) i 0)
        else parsed line_bad i buf)
    else rest

unfoldable pub parse_line : Conn → Parsed
unfolding parse_from
parse_line c = parse_from (c.read_idx - c.checked_idx) c.checked_idx c.read_buf

-- The bytes of `new` stored from the place `i` on.
abbrev pub store : List ℕ → ℕ → List ℕ → List ℕ
store buf i new = take i buf ++ new ++ drop (i + length new) buf

-- The loop of read(): recv asks for the room that is left. A failure other than EAGAIN makes it
-- return false, and 0 bytes, which are the end of the stream or come where no room is left for what
-- has arrived. Where the arrivals end recv would block.
pub read_loop : List Arrival → Conn → Bool × Conn
read_loop [] c = (true, c)
read_loop (failure e ∷ s) c = (false, c)
read_loop (chunk bs ∷ s) c =
    let taken = take (read_buffer_size - c.read_idx) bs in
    let filled = record c {
      read_buf = store c.read_buf c.read_idx taken;
      read_idx = c.read_idx + length taken;
    } in
    let rest = read_loop s filled in
    if length taken == 0
    then (false, c)
    else if ltb (length taken) (length bs)
    then (false, filled)
    else rest

unfoldable pub read : List Arrival → Conn → Bool × Conn
unfolding read_loop
read s c = if leb read_buffer_size c.read_idx then (false, c) else read_loop s c
