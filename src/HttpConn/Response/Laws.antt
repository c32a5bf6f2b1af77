-- ===== src/HttpConn/Response/Laws.antt =====
-- The responses of http_conn.cpp fit into the buffer.
use unix_network_programming.Base.{
  ℕ, ◌+◌, ◌-◌, ◌≤◌, ◌<◌, ◌≡◌, ap, ◌∙◌, List, [], ◌∷◌, ◌++◌, append_assoc, Bool, true, false, leb,
  else_branch, length, length-append, arith,
}
use unix_network_programming.Decimal.{decimal, length-decimal_rounds}
use unix_network_programming.HttpConn.{write_buffer_size, Conn}
use unix_network_programming.HttpConn.Response.{
  add_response, crlf, status_line, length_line, linger_line, add_headers, one_part, add_page,
}

-- A text that fits is appended.
add_response_fits :
    (text : List ℕ) (c : Conn)
    → length c.write_buf + length text < 1023
    → add_response text c ≡ (true, record c { write_buf = c.write_buf ++ text })
unfolding add_response
add_response_fits text c l =
    else_branch {b = leb write_buffer_size (length c.write_buf)} _ _ (ground arith)
    ∙ else_branch {b = leb (write_buffer_size - 1 - length c.write_buf) (length text)} _ _
        (ground arith)

abbrev pub headers : Bool → ℕ → List ℕ
headers linger n = length_line n ++ (linger_line linger ++ crlf)

length-linger_line : (b : Bool) → length (linger_line b) ≤ 24
length-linger_line true = omega arith
length-linger_line false = omega arith

pub add_headers_fits :
    (n : ℕ) (c : Conn)
    → length c.write_buf ≤ 900
    → add_headers n c ≡ record c { write_buf = c.write_buf ++ headers c.linger n }
unfolding add_headers
add_headers_fits n c l =
    let a = length_line n in
    let b = linger_line c.linger in
    let la : length a ≤ 28 =
      omega (arith, length-append (decimal n) crlf, length-decimal_rounds n) in
    let lb = length-linger_line c.linger in
    let w1 = c.write_buf ++ a in
    let w2 = w1 ++ b in
    let c1 : Conn = record c { write_buf = w1 } in
    let c2 : Conn = record c { write_buf = w2 } in
    let l1 : length w1 ≤ 928 = omega (arith, length-append c.write_buf a) in
    let l2 : length w2 ≤ 952 = omega (arith, length-append w1 b) in
    ap (λ r. (add_response crlf (add_response b r.1).1).1) (add_response_fits a c (omega arith))
    ∙ ap (λ r. (add_response crlf r.1).1) (add_response_fits b c1 (omega arith))
    ∙ ap (λ r. r.1) (add_response_fits crlf c2 (omega arith))
    ∙ ap (λ w. record c { write_buf = w })
        (append_assoc w1 b crlf ∙ append_assoc c.write_buf a (b ++ crlf))

-- A whole response.
abbrev pub response : ℕ → List ℕ → Bool → List ℕ → List ℕ
response status title linger page =
    status_line status title ++ (headers linger (length page) ++ page)

pub length-headers : (linger : Bool) (n : ℕ) → length (headers linger n) ≤ 60
length-headers linger n = omega (
  arith,
  length-append (length_line n) (linger_line linger ++ crlf),
  length-append (linger_line linger) crlf,
  length-append (decimal n) crlf,
  length-decimal_rounds n,
  length-linger_line linger,
)

pub length-status_line :
    (status : ℕ) (title : List ℕ) → length (status_line status title) ≤ 22 + length title
length-status_line status title = omega (
  arith,
  length-append (decimal status) (32 ∷ (title ++ crlf)),
  length-append title crlf,
  length-decimal_rounds status,
)

pub status_fits :
    (status : ℕ) (title : List ℕ) (c : Conn)
    → c.write_buf ≡ []
    → length title ≤ 100
    → add_response (status_line status title) c
      ≡ (true, record c { write_buf = status_line status title })
status_fits status title c e l =
    let t = status_line status title in
    let n = ap length e in
    add_response_fits t c (omega (arith, length-status_line status title))
    ∙ ap (λ w. (true, record c { write_buf = w ++ t })) e

pub add_page_lem :
    (status : ℕ) (title page : List ℕ) (c : Conn)
    → c.write_buf ≡ []
    → length title ≤ 100
    → length page ≤ 100
    → add_page status title page c
      ≡ (true, record c { write_buf = response status title c.linger page; with_file = false })
unfolding add_page
add_page_lem status title page c e l m =
    let t = status_line status title in
    let h = headers c.linger (length page) in
    let c1 : Conn = record c { write_buf = t } in
    let c2 : Conn = record c { write_buf = t ++ h } in
    let lt = length-status_line status title in
    let lh = length-headers c.linger (length page) in
    ap (λ r. one_part (add_response page (add_headers (length page) r.1)))
      (status_fits status title c e l)
    ∙ ap (λ d. one_part (add_response page d)) (add_headers_fits (length page) c1 (omega arith))
    ∙ ap one_part (add_response_fits page c2 (omega (arith, length-append t h)))
    ∙ ap (λ w. (true, record c { write_buf = w; with_file = false })) (append_assoc t h page)
