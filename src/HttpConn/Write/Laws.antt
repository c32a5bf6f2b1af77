-- ===== src/HttpConn/Write/Laws.antt =====
-- What http_conn.cpp sends to its client.
use unix_network_programming.Base.{
  ℕ, suc, ◌^◌, ◌≤◌, ◌<◌, ◌≡◌, refl, sym, ap, subst, ◌∙◌, List, [], ◌∷◌, ◌++◌, append_assoc, codes,
  Bool, true, false, Option, none, some, ◌==◌, then_branch, else_branch, length, length-append,
  arith,
}
use unix_network_programming.HttpConn.{
  HttpCode, no_request, get_request, bad_request, no_resource, forbidden_request, file_request,
  internal_error, Stat, Conn,
}
use unix_network_programming.HttpConn.Response.{
  status_line, add_page, add_headers, add_file, size_of, ok_string, error_400_form, error_403_form,
  error_404_form, error_500_form, process_write,
}
use unix_network_programming.HttpConn.Response.Laws.{
  headers, response, add_page_lem, status_fits, add_headers_fits, length-status_line,
  length-headers,
}
use unix_network_programming.HttpConn.Write.{bytes_of, parts}

-- What the codes mean to a client.
abbrev pub IsReply : HttpCode → Type 0
IsReply no_request = ⊥
IsReply get_request = ⊥
IsReply bad_request = Unit
IsReply no_resource = Unit
IsReply forbidden_request = Unit
IsReply file_request = Unit
IsReply internal_error = Unit

abbrev pub status_of : HttpCode → ℕ
status_of no_request = 0
status_of get_request = 0
status_of bad_request = 400
status_of no_resource = 404
status_of forbidden_request = 403
status_of file_request = 200
status_of internal_error = 500

abbrev pub title_of : HttpCode → List ℕ
title_of no_request = []
title_of get_request = []
title_of bad_request = codes "Bad Request"
title_of no_resource = codes "Not Found"
title_of forbidden_request = codes "Forbidden"
title_of file_request = codes "OK"
title_of internal_error = codes "Internal Error"

-- An empty file is shown as a page.
abbrev pub shown : List ℕ → List ℕ
shown [] = ok_string
shown (b ∷ bs) = b ∷ bs

abbrev pub page_for : HttpCode → Option Stat → List ℕ
page_for no_request file = []
page_for get_request file = []
page_for bad_request file = error_400_form
page_for no_resource file = error_404_form
page_for forbidden_request file = error_403_form
page_for file_request file = shown (bytes_of file)
page_for internal_error file = error_500_form

-- process_write has a response ready, in the buffer or in the buffer and the file.
abbrev pub Ready : List ℕ → Bool → Bool × Conn → Type 0
Ready whole linger r =
    (d : Conn) × (r ≡ (true, d))
    × (parts d ≡ whole)
    × (d.linger ≡ linger)
    × (0 < length d.write_buf)
    × (length d.write_buf < 1024)

page-Ready :
    (status : ℕ) (title page : List ℕ) (c : Conn)
    → c.write_buf ≡ []
    → length title ≤ 100
    → length page ≤ 100
    → Ready (response status title c.linger page) c.linger (add_page status title page c)
page-Ready status title page c e l m =
    let t = status_line status title in
    let h = headers c.linger (length page) in
    let n : length (response status title c.linger page) < 1024 = omega (
      arith,
      length-append t (h ++ page),
      length-append h page,
      length-status_line status title,
      length-headers c.linger (length page),
    ) in
    (
      record c { write_buf = response status title c.linger page; with_file = false },
      add_page_lem status title page c e l m,
      refl,
      refl,
      omega (arith, length-append t (h ++ page)),
      n,
    )

size_of-bytes_of : (o : Option Stat) → size_of o ≡ length (bytes_of o)
size_of-bytes_of none = refl
size_of-bytes_of (some s) = refl

file-Ready :
    (bytes : List ℕ) (c : Conn)
    → bytes_of c.file ≡ bytes
    → c.write_buf ≡ []
    → Ready (response 200 (codes "OK") c.linger (shown bytes)) c.linger (add_file c)
unfolding add_file
file-Ready [] c b e =
    let z : size_of c.file ≡ 0 = size_of-bytes_of c.file ∙ ap length b in
    subst (Ready (response 200 (codes "OK") c.linger ok_string) c.linger)
      (sym (then_branch {b = size_of c.file == 0} _ _ (ap (λ n. n == 0) z)))
      (page-Ready 200 (codes "OK") ok_string c e (omega arith) (omega arith))
file-Ready (x ∷ xs) c b e =
    let z : size_of c.file ≡ suc (length xs) = size_of-bytes_of c.file ∙ ap length b in
    let t = status_line 200 (codes "OK") in
    let h = headers c.linger (suc (length xs)) in
    let c1 : Conn = record c { write_buf = t } in
    let lt : length t ≤ 24 = length-status_line 200 (codes "OK") in
    let lh = length-headers c.linger (suc (length xs)) in
    let with_bytes : List ℕ → Conn = λ w. record c { write_buf = w; with_file = true } in
    subst (Ready (response 200 (codes "OK") c.linger (x ∷ xs)) c.linger)
      (sym (else_branch {b = size_of c.file == 0} _ _ (ground arith)))
      (
        with_bytes (t ++ h),
        ap (λ r. (true, record (add_headers (size_of c.file) r.1) { with_file = true }))
              (status_fits 200 (codes "OK") c e (omega arith))
            ∙ ap (λ d. (true, record d { with_file = true }))
                (add_headers_fits (size_of c.file) c1 (omega arith))
            ∙ ap (λ n. (true, with_bytes (t ++ headers c.linger n))) z,
        ap (λ bs. (t ++ h) ++ bs) b ∙ append_assoc t h (x ∷ xs),
        refl,
        omega (arith, length-append t h),
        omega (arith, length-append t h),
      )

-- For each code that process_read answers a client with, and an empty write buffer: process_write
-- returns true with the status line, the length and the page, or the file behind them, ready for writev,
-- within the write buffer. The size of the file is one of an int.
pub process_write-Ready :
    (code : HttpCode) (c : Conn)
    → IsReply code
    → c.write_buf ≡ []
    → length (bytes_of c.file) < 2 ^ 31
    → Ready
        (response (status_of code) (title_of code) c.linger (page_for code c.file))
        c.linger
        (process_write code c)
unfolding process_write
process_write-Ready no_request c r e l = absurd r
process_write-Ready get_request c r e l = absurd r
process_write-Ready bad_request c r e l =
    page-Ready 400 (codes "Bad Request") error_400_form c e (omega arith) (omega arith)
process_write-Ready no_resource c r e l =
    page-Ready 404 (codes "Not Found") error_404_form c e (omega arith) (omega arith)
process_write-Ready forbidden_request c r e l =
    page-Ready 403 (codes "Forbidden") error_403_form c e (omega arith) (omega arith)
process_write-Ready file_request c r e l = file-Ready (bytes_of c.file) c refl e
process_write-Ready internal_error c r e l =
    page-Ready 500 (codes "Internal Error") error_500_form c e (omega arith) (omega arith)
