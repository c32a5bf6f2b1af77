-- ===== src/Httpd/Line.antt =====
-- `get_line` of mini_httpd/mini_httpd.c.
pub mod Laws
use unix_network_programming.Base.{
  ℕ, zero, suc, ◌+◌, ◌-◌, List, [], ◌∷◌, Option, none, some, Bool, not, ◌&&◌, ◌==◌, ltb,
  if◌then◌else◌, set,
}
use unix_network_programming.ByteIo.{Arrival, ReadResult, got, failed, read, size}

abbrev pub carriage_return : ℕ
carriage_return = 13

abbrev pub newline : ℕ
newline = 10

-- The value returned, the caller's buffer, and what is still to be read.
pub record GetLine : Type 0 where
  pub count : ℕ
  pub buf : List ℕ
  pub input : List Arrival

abbrev pub result : ℕ → List ℕ → List Arrival → Option GetLine
result count buf s = some (record { count = count; buf = buf; input = s })

-- The body of the loop, on what `read(sock, &ch, 1)` answered.
pub on_read :
    (ℕ → ℕ → List ℕ → List Arrival → Option GetLine)
    → ℕ
    → ℕ
    → List ℕ
    → ReadResult
    → List Arrival
    → Option GetLine
on_read loop count ch buf (failed e) s = result count buf s
on_read loop count ch buf (got []) s = result count buf s
on_read loop count ch buf (got (c ∷ _)) s =
    if c == carriage_return
    then loop count c buf s
    else if c == newline
    then result count (set buf count 0) s
    else loop (count + 1) c (set buf count c) s

-- `while (count < size - 1 && ch != '\n')`; `none` means that the fuel ran out.
pub get_line_loop : ℕ → ℕ → ℕ → ℕ → List ℕ → List Arrival → Option GetLine
get_line_loop zero bufsize count ch buf s = none
get_line_loop (suc fuel) bufsize count ch buf s =
    let (answer, rest) = read 1 s in
    let round = on_read (get_line_loop fuel bufsize) count ch buf answer rest in
    if ltb count (bufsize - 1) && not (ch == newline) then round else result count buf s

-- Each round takes a byte or an arrival.
unfoldable pub get_line : ℕ → List ℕ → List Arrival → Option GetLine
unfolding get_line_loop on_read read
get_line bufsize buf s = get_line_loop (suc (size s)) bufsize 0 0 buf s
