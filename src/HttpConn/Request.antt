-- ===== src/HttpConn/Request.antt =====
-- `parse_request_line`, `parse_headers`, `parse_content` and `do_request` of http_conn.cpp.
pub mod Laws
use unix_network_programming.Base.{
  ℕ, zero, suc, ◌+◌, ◌-◌, ◌≤◌, List, [], ◌∷◌, ◌++◌, codes, Bool, true, false, not, Option, none,
  some, ◌==◌, leb, ltb, if◌then◌else◌, length, take, drop, set,
}
use unix_network_programming.CString.{c_string, same_text}
use unix_network_programming.HttpConn.{
  CheckState, header, content, HttpCode, no_request, get_request, bad_request, no_resource,
  forbidden_request, file_request, ℤ, pos, negsuc, filename_len, read_buffer_size, Stat, Files,
  Conn, byte, is_blank, blanks, first, starts_with, atoi,
}

-- The string that a pointer into the buffer names.
abbrev pub text_at : List ℕ → ℕ → List ℕ
text_at buf i = c_string (drop i buf)

-- A place behind a pointer, if there is one.
abbrev pub behind : ℕ → Option ℕ → Option ℕ
behind i none = none
behind i (some k) = some (i + k)

-- strpbrk(text, " \t") for the text at `i`.
abbrev pub blank_at : List ℕ → ℕ → Option ℕ
blank_at buf i = behind i (first is_blank (text_at buf i))

-- *p++ = '\0'; p += strspn(p, " \t"), for the pointer `i`: the buffer and the pointer.
abbrev pub cut : List ℕ → ℕ → List ℕ
cut buf i = set buf i 0

abbrev pub behind_blanks : List ℕ → ℕ → ℕ
behind_blanks buf i = suc i + blanks (text_at (cut buf i) (suc i))

-- The part of a URL that names the host is left out; `none` is NULL.
abbrev pub without_host : List ℕ → ℕ → Option ℕ
without_host buf url =
    if starts_with (text_at buf url) (codes "http://")
    then behind (url + 7) (first (λ b. b == b'/') (text_at buf (url + 7)))
    else if starts_with (text_at buf url) (codes "https://")
    then behind (url + 8) (first (λ b. b == b'/') (text_at buf (url + 8)))
    else some url

-- The test of the URL.
abbrev pub check_url : Option ℕ → Conn → HttpCode × Conn
check_url none c = (bad_request, record c { url = none })
check_url (some url) c =
    if byte c.read_buf url == b'/'
    then (no_request, record c { url = some url; check_state = header })
    else (bad_request, record c { url = some url })

-- Behind the URL at `url`: `blank` is where the version begins, if there is one.
abbrev pub on_version : ℕ → Option ℕ → Conn → HttpCode × Conn
on_version url none c = (bad_request, record c { url = some url; version = none })
on_version url (some blank) c =
    let buf = cut c.read_buf blank in
    let version = behind_blanks c.read_buf blank in
    let seen = record c { read_buf = buf; url = some url; version = some version } in
    if same_text (text_at buf version) (codes "HTTP/1.1")
    then check_url (without_host buf url) seen
    else (bad_request, seen)

-- Behind the method of the text at `text`: `blank` is where the URL begins, if there is one.
abbrev pub on_url : ℕ → Option ℕ → Conn → HttpCode × Conn
on_url text none c = (bad_request, record c { url = none })
on_url text (some blank) c =
    let buf = cut c.read_buf blank in
    let url = behind_blanks c.read_buf blank in
    if same_text (text_at buf text) (codes "GET")
    then on_version url (blank_at buf url) (record c { read_buf = buf })
    else (bad_request, record c { read_buf = buf; url = some (suc blank) })

unfoldable pub parse_request_line : ℕ → Conn → HttpCode × Conn
parse_request_line text c = on_url text (blank_at c.read_buf text) c

-- The value of a header field behind its name.
abbrev pub value_at : List ℕ → ℕ → ℕ
value_at buf i = i + blanks (text_at buf i)

abbrev pub is_zero : ℤ → Bool
is_zero (pos n) = n == 0
is_zero (negsuc n) = false

unfoldable pub parse_headers : ℕ → Conn → HttpCode × Conn
parse_headers text c =
    let line = text_at c.read_buf text in
    if byte c.read_buf text == 0
    then (if is_zero c.content_length
        then (get_request, c)
        else (no_request, record c { check_state = content }))
    else if starts_with line (codes "Connection:")
    then (
      no_request,
      record c {
        linger =
            if same_text (text_at c.read_buf (value_at c.read_buf (text + 11))) (codes "keep-alive")
            then true
            else c.linger;
      },
    )
    else if starts_with line (codes "Content-Length:")
    then (
      no_request,
      record c { content_length = atoi (text_at c.read_buf (value_at c.read_buf (text + 15))) },
    )
    else if starts_with line (codes "Host:")
    then (no_request, record c { host = some (value_at c.read_buf (text + 5)) })
    else (no_request, c)

-- m_read_idx >= m_content_length + m_checked_idx
abbrev pub is_complete : ℤ → Conn → Bool
is_complete (pos n) c = leb (n + c.checked_idx) c.read_idx
is_complete (negsuc n) c = leb c.checked_idx (c.read_idx + suc n)

-- text[m_content_length], where that is a byte of the buffer.
abbrev pub byte_of_buffer : ℤ → ℕ → Option ℕ
byte_of_buffer (pos n) text = if ltb (text + n) read_buffer_size then some (text + n) else none
byte_of_buffer (negsuc n) text = if leb (suc n) text then some (text - suc n) else none

-- `fault` is a write outside the buffer, which C++ leaves undefined.
pub data Step : Type 0 where
  step : HttpCode → Conn → Step
  fault : Step

abbrev pub end_content : Option ℕ → Conn → Step
end_content none c = fault
end_content (some i) c = step get_request (record c { read_buf = cut c.read_buf i })

unfoldable pub parse_content : ℕ → Conn → Step
parse_content text c =
    if is_complete c.content_length c
    then end_content (byte_of_buffer c.content_length text) c
    else step no_request c

-- m_real_file: "htdocs" and the URL, cut to the array, which init() has filled with nulls.
abbrev pub real_file : List ℕ → List ℕ
real_file url = codes "htdocs" ++ take (filename_len - 6 - 1) url

abbrev pub on_stat : Option Stat → Conn → HttpCode × Conn
on_stat none c = (no_resource, c)
on_stat (some s) c =
    if not s.others_read
    then (forbidden_request, record c { file = some s })
    else if s.is_dir
    then (bad_request, record c { file = some s })
    else (file_request, record c { file = some s })

-- strncpy would read at NULL; parse_request_line leaves a URL where it goes on.
abbrev pub url_text : Conn → Option ℕ → List ℕ
url_text c none = []
url_text c (some url) = text_at c.read_buf url

-- open and mmap succeed.
unfoldable pub do_request : Files → Conn → HttpCode × Conn
do_request files c = on_stat (files (real_file (url_text c c.url))) c
