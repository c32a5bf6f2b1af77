-- ===== src/HttpConn/Response.antt =====
-- `add_response` and its callers, and `process_write`, of http_conn.cpp.
pub mod Laws
use unix_network_programming.Base.{
  ℕ, ◌+◌, ◌-◌, List, [], ◌∷◌, ◌++◌, codes, Bool, true, false, Option, none, some, ◌==◌, leb,
  if◌then◌else◌, length,
}
use unix_network_programming.Decimal.{decimal}
use unix_network_programming.HttpConn.{
  HttpCode, no_request, get_request, bad_request, no_resource, forbidden_request, file_request,
  internal_error, write_buffer_size, Stat, Conn,
}

-- The text is what vsnprintf formats; where it does not fit, it is not counted as written.
pub add_response : List ℕ → Conn → Bool × Conn
add_response text c =
    if leb write_buffer_size (length c.write_buf)
    then (false, c)
    else if leb (write_buffer_size - 1 - length c.write_buf) (length text)
    then (false, c)
    else (true, record c { write_buf = c.write_buf ++ text })

abbrev pub crlf : List ℕ
crlf = 13 ∷ 10 ∷ []

-- \"%s %d %s\\r\\n\", \"Content-Length: %d\\r\\n\" and \"Connection: %s\\r\\n\".
abbrev pub status_line : ℕ → List ℕ → List ℕ
status_line status title = codes "HTTP/1.1 " ++ (decimal status ++ (32 ∷ (title ++ crlf)))

abbrev pub length_line : ℕ → List ℕ
length_line n = codes "Content-Length: " ++ (decimal n ++ crlf)

abbrev pub linger_line : Bool → List ℕ
linger_line true = codes "Connection: keep-alive" ++ crlf
linger_line false = codes "Connection: close" ++ crlf

-- The three calls, whose results are not looked at.
pub add_headers : ℕ → Conn → Conn
unfolding add_response
add_headers content_len c =
    let with_length = (add_response (length_line content_len) c).1 in
    let with_linger = (add_response (linger_line c.linger) with_length).1 in
    (add_response crlf with_linger).1

abbrev pub one_part : Bool × Conn → Bool × Conn
one_part (true, c) = (true, record c { with_file = false })
one_part (false, c) = (false, c)

-- A page: add_status_line, add_headers and add_content.
pub add_page : ℕ → List ℕ → List ℕ → Conn → Bool × Conn
unfolding add_headers add_response
add_page status title page c =
    one_part
      (add_response page (add_headers (length page) (add_response (status_line status title) c).1))

abbrev pub error_400_form : List ℕ
error_400_form = codes "Your request has bad syntax or is inherently impossible to satisfy.\n"

abbrev pub error_403_form : List ℕ
error_403_form = codes "You do not have permission to get file from this server.\n"

abbrev pub error_404_form : List ℕ
error_404_form = codes "The requested file was not found on this server.\n"

abbrev pub error_500_form : List ℕ
error_500_form = codes "There was an unusual problem serving the requested file.\n"

abbrev pub ok_string : List ℕ
ok_string = codes "<html><body></body></html>"

-- st_size
abbrev pub size_of : Option Stat → ℕ
size_of none = 0
size_of (some s) = length s.bytes

unfoldable pub add_file : Conn → Bool × Conn
unfolding add_page add_headers add_response
add_file c =
    let with_status = (add_response (status_line 200 (codes "OK")) c).1 in
    if size_of c.file == 0
    then one_part (add_response ok_string (add_headers (length ok_string) with_status))
    else (true, record (add_headers (size_of c.file) with_status) { with_file = true })

unfoldable pub process_write : HttpCode → Conn → Bool × Conn
unfolding add_page add_file add_headers add_response
process_write internal_error c = add_page 500 (codes "Internal Error") error_500_form c
process_write bad_request c = add_page 400 (codes "Bad Request") error_400_form c
process_write no_resource c = add_page 404 (codes "Not Found") error_404_form c
process_write forbidden_request c = add_page 403 (codes "Forbidden") error_403_form c
process_write file_request c = add_file c
process_write no_request c = (false, c)
process_write get_request c = (false, c)
