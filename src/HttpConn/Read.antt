-- ===== src/HttpConn/Read.antt =====
-- `process_read` of http_conn.cpp.
pub mod Headers
pub mod Laws
pub mod Keeps
pub mod Ends
pub mod Content
use unix_network_programming.Base.{ℕ, zero, suc, ◌+◌, Bool, true, false, ◌&&◌, if◌then◌else◌}
use unix_network_programming.HttpConn.{
  CheckState, requestline, header, content, HttpCode, no_request, get_request, bad_request,
  no_resource, forbidden_request, file_request, internal_error, LineStatus, line_ok, line_bad,
  line_open, Files, Conn,
}
use unix_network_programming.HttpConn.Line.{Parsed, parse_line}
use unix_network_programming.HttpConn.Request.{
  Step, step, fault, parse_request_line, parse_headers, parse_content, do_request,
}

-- What process_read returns, with the connection.
pub data Answer : Type 0 where
  answer : HttpCode → Conn → Answer
  undefined : Answer
  out_of_fuel : Answer

abbrev pub answered : HttpCode × Conn → Answer
answered (code, c) = answer code c

-- `break` out of a case of the switch, with the code that the case has tested.
abbrev pub on_request_line : (Conn → Answer) → HttpCode × Conn → Answer
on_request_line next (bad_request, c) = answer bad_request c
on_request_line next (no_request, c) = next c
on_request_line next (get_request, c) = next c
on_request_line next (no_resource, c) = next c
on_request_line next (forbidden_request, c) = next c
on_request_line next (file_request, c) = next c
on_request_line next (internal_error, c) = next c

abbrev pub on_header : Files → (Conn → Answer) → HttpCode × Conn → Answer
on_header files next (bad_request, c) = answer bad_request c
on_header files next (get_request, c) = answered (do_request files c)
on_header files next (no_request, c) = next c
on_header files next (no_resource, c) = next c
on_header files next (forbidden_request, c) = next c
on_header files next (file_request, c) = next c
on_header files next (internal_error, c) = next c

abbrev pub on_content : Files → (Conn → Answer) → Step → Answer
on_content files next fault = undefined
on_content files next (step get_request c) = answered (do_request files c)
on_content files next (step bad_request c) = next c
on_content files next (step no_request c) = next c
on_content files next (step no_resource c) = next c
on_content files next (step forbidden_request c) = next c
on_content files next (step file_request c) = next c
on_content files next (step internal_error c) = next c

-- The switch, given how the loop goes on with a line_status.
pub switch : Files → CheckState → ℕ → (LineStatus → Conn → Answer) → Conn → Answer
switch files requestline text loop c = on_request_line (loop line_ok) (parse_request_line text c)
switch files header text loop c = on_header files (loop line_ok) (parse_headers text c)
switch files content text loop c = on_content files (loop line_open) (parse_content text c)

-- The body of the loop: get_line, and the start of the next line.
abbrev pub body : Files → (LineStatus → Conn → Answer) → Conn → Answer
body files loop c =
    switch files c.check_state c.start_line loop (record c { start_line = c.checked_idx })

-- The condition of the loop: in the content no line is looked for, behind LINE_OK.
abbrev pub is_content : CheckState → LineStatus → Bool
is_content content line_ok = true
is_content content line_bad = false
is_content content line_open = false
is_content requestline s = false
is_content header s = false

abbrev pub with_line : Parsed → Conn → Conn
with_line p c = record c { checked_idx = p.checked_idx; read_buf = p.read_buf }

abbrev pub on_line : LineStatus → (Conn → Answer) → Conn → Answer
on_line line_ok next c = next c
on_line line_bad next c = answer no_request c
on_line line_open next c = answer no_request c

pub process_loop : Files → ℕ → LineStatus → Conn → Answer
unfolding switch
process_loop files zero status c = out_of_fuel
process_loop files (suc fuel) status c =
    let p = parse_line c in
    if is_content c.check_state status
    then body files (process_loop files fuel) c
    else on_line p.status (body files (process_loop files fuel)) (with_line p c)

-- A round takes a byte or more, or is the first in the content: two rounds for each byte are enough.
unfoldable pub process_read : Files → Conn → Answer
unfolding process_loop
process_read files c = process_loop files (c.read_idx + c.read_idx + 3) line_ok c
