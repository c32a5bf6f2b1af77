-- ===== src/Tests/HttpConn.antt =====
-- HttpConn on a request for /a, whole and in parts, and on contents.
use unix_network_programming.Base.{
  ℕ, zero, suc, ◌+◌, ◌<◌, ◌≡◌, refl, List, [], ◌∷◌, codes, true, false, Option, none, some,
  if◌then◌else◌, length, replicate, All, arith,
}
use unix_network_programming.CString.{same_bytes}
use unix_network_programming.ByteIo.{took}
use unix_network_programming.HttpConn.{
  requestline, HttpCode, no_request, bad_request, pos, negsuc, Stat, Files, Conn, byte,
}
use unix_network_programming.HttpConn.Line.{parse_line, parse_from}
use unix_network_programming.HttpConn.Line.Laws.{IsPlain, parse_line_resumes}
use unix_network_programming.HttpConn.Request.{parse_request_line, parse_headers, parse_content}
use unix_network_programming.HttpConn.Read.{Answer, answer, undefined, out_of_fuel, process_read}
use unix_network_programming.HttpConn.Read.Content.{in_content, content_waits, content_underflow}
use unix_network_programming.HttpConn.Response.{process_write}
use unix_network_programming.HttpConn.Response.Laws.{response}
use unix_network_programming.HttpConn.Write.{write}
use unix_network_programming.HttpConn.Write.Laws.{Ready, process_write-Ready}

abbrev page : Stat
page = record { others_read = true; is_dir = false; bytes = codes "hi" }

abbrev files : Files
files path = if same_bytes path (codes "htdocs/a") then some page else none

abbrev fresh : Conn
fresh = record {
  read_buf = [];
  read_idx = 0;
  checked_idx = 0;
  start_line = 0;
  check_state = requestline;
  url = none;
  version = none;
  host = none;
  content_length = pos 0;
  linger = false;
  file = none;
  write_buf = [];
  with_file = false;
}

abbrev host_header : List (List ℕ)
host_header = codes "Host: h" ∷ []

abbrev text_conn : List ℕ → Conn
text_conn text = record fresh { read_buf = text; read_idx = length text }

process_write-Ready_example :
    Ready
      (response 400
        (codes "Bad Request")
        false
        (codes "Your request has bad syntax or is inherently impossible to satisfy.\n"))
      false
      (process_write bad_request fresh)
process_write-Ready_example = process_write-Ready bad_request fresh tt refl (omega arith)

abbrev sending : Conn
sending = record fresh { write_buf = codes "head"; with_file = true; file = some page }

-- A file of 2000 bytes.
abbrev long_page : Stat
long_page = record { others_read = true; is_dir = false; bytes = replicate 2000 b'x' }

abbrev long_files : Files
long_files path = if same_bytes path (codes "htdocs/a") then some long_page else none

-- Where the buffer of the socket is full behind two bytes, these are sent again.
resends : (write (took 2 ∷ []) sending).sent ≡ codes "heheadhi"
unfolding write
resends = refl

bytes-IsPlain : (bs : List ℕ) → All IsPlain bs → (j : ℕ) → IsPlain (byte bs j)
bytes-IsPlain [] h j = (ground arith, ground arith)
bytes-IsPlain (b ∷ bs) (h, hs) zero = h
bytes-IsPlain (b ∷ bs) (h, hs) (suc j) = bytes-IsPlain bs hs j

same_start : (j : ℕ) → j < 3 → byte (codes "ab\r") j ≡ byte (codes "ab\r\n") j
same_start zero l = refl
same_start (suc zero) l = refl
same_start (suc (suc zero)) l = refl
same_start (suc (suc (suc j))) l = absurd (omega arith)

parse_line_resumes_example :
    parse_line (record (text_conn (codes "ab\r\n")) { checked_idx = 0 })
    ≡ parse_line (record (text_conn (codes "ab\r\n")) { checked_idx = 2 })
unfolding parse_line parse_from
parse_line_resumes_example =
    parse_line_resumes (text_conn (codes "ab\r")) (text_conn (codes "ab\r\n")) 2 (codes "ab\r") refl
      (omega arith) (omega arith) same_start

-- Two of four bytes, and then all of them.
content_waits_example :
    (d : Conn) × (process_read files (in_content (text_conn (codes "ab")) (pos 4))
      ≡ answer no_request d)
    × ((e : Conn) × (process_read files (record d { read_buf = codes "abcd"; read_idx = 4 + 0 })
          ≡ answer no_request e))
content_waits_example =
    content_waits files 4 (text_conn (codes "ab")) (codes "abcd") (omega arith) (omega arith)
      (bytes-IsPlain (codes "ab") (ground arith)) (bytes-IsPlain (codes "abcd") (ground arith))

content_underflow_example :
    process_read files (in_content (text_conn (codes "ab")) (negsuc 4999)) ≡ undefined
content_underflow_example =
    content_underflow files 4999 (text_conn (codes "ab")) (omega arith) (omega arith)

abbrev code_of : Answer → Option HttpCode
code_of (answer code c) = some code
code_of undefined = none
code_of out_of_fuel = none

-- A newline alone is a line that is bad, and gets no answer.
bad_line : code_of (process_read files (text_conn (codes "GET /a\n"))) ≡ some no_request
unfolding process_read parse_line parse_from
bad_line = refl

-- A length below 0, which a client can send.
negative_length :
    process_read files (text_conn (codes "GET /a HTTP/1.1\r\nContent-Length: -5000\r\n\r\n"))
    ≡ undefined
unfolding process_read parse_line parse_from parse_request_line parse_headers parse_content
negative_length = refl
