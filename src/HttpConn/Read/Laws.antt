-- ===== src/HttpConn/Read/Laws.antt =====
-- `process_read` of http_conn.cpp on a whole request.
use unix_network_programming.Base.{
  ℕ, suc, ◌+◌, ◌≤◌, ◌≡◌, refl, sym, ap, ap₂, ◌∙◌, List, [], ◌∷◌, ◌++◌, append_assoc, codes, some,
  length, length-append, All, arith,
}
use unix_network_programming.HttpConn.{requestline, line_ok, pos, Files, Conn}
use unix_network_programming.HttpConn.Line.Laws.{IsPlain, parse_line_lem}
use unix_network_programming.HttpConn.Request.{text_at, parse_request_line}
use unix_network_programming.HttpConn.Request.Laws.{
  IsWordByte, cut_line, version_of, url_in, parse_request_line_get,
}
use unix_network_programming.HttpConn.Read.{
  on_request_line, switch, body, with_line, on_line, process_loop, process_read,
}
use unix_network_programming.HttpConn.Read.Headers.{
  in_headers, IsHeader, header_lines, HasUrl, IsFor, headers_IsFor,
}

-- The request, the connection that has read it first, and bytes behind it.
abbrev pub request_line : List ℕ → List ℕ
request_line path = codes "GET" ++ (32 ∷ b'/' ∷ (path ++ 32 ∷ codes "HTTP/1.1"))

abbrev pub has_read : Conn → List ℕ → List (List ℕ) → List ℕ → ℕ → Conn
has_read k path hs post n = record k {
  read_buf = request_line path ++ 13 ∷ 10 ∷ (header_lines hs ++ 13 ∷ 10 ∷ post);
  read_idx = n;
  checked_idx = 0;
  start_line = 0;
  check_state = requestline;
  content_length = pos 0;
}

abbrev pub request_length : List ℕ → List (List ℕ) → ℕ
request_length path hs = length path + 16 + length (header_lines hs) + 2

-- A byte of a URL.
abbrev pub IsUrlByte : ℕ → Type 0
IsUrlByte b = IsWordByte b × IsPlain b

url_word : (u : List ℕ) → All IsUrlByte u → All IsWordByte u
url_word [] h = tt
url_word (b ∷ u) ((w, p), hs) = (w, url_word u hs)

line-IsPlain : (path : List ℕ) → All IsUrlByte path → All IsPlain (path ++ 32 ∷ codes "HTTP/1.1")
line-IsPlain [] h = ground arith
line-IsPlain (b ∷ path) ((w, p), hs) = (p, line-IsPlain path hs)

lines_length : (hs : List (List ℕ)) → length hs ≤ length (header_lines hs)
lines_length [] = omega arith
lines_length (h ∷ hs) = omega (arith, length-append h (13 ∷ 10 ∷ header_lines hs), lines_length hs)

cut_url_in : (path : List ℕ) → All IsWordByte path → HasUrl (b'/' ∷ path) (cut_line path (0 ∷ []))
cut_url_in path h ys =
    ap (λ bs. text_at (codes "GET" ++ (0 ∷ b'/' ∷ bs)) 4)
      (append_assoc path (0 ∷ (codes "HTTP/1.1" ++ 0 ∷ 0 ∷ [])) ys)
    ∙ url_in path (0 ∷ ys) h

-- For a connection that has read a request \"GET /path HTTP/1.1\" with headers, none of which is the
-- length of a content, process_read returns in one call what do_request finds for the file of that path.
pub process_read_get :
    (files : Files) (k : Conn) (path : List ℕ) (hs : List (List ℕ)) (post : List ℕ) (n : ℕ)
    → All IsUrlByte path
    → All IsHeader hs
    → request_length path hs ≤ n
    → IsFor files k.write_buf (b'/' ∷ path) (process_read files (has_read k path hs post n))
unfolding process_read process_loop switch
process_read_get files k path hs post n h hh l =
    let c = has_read k path hs post n in
    let fuel = n + n + 2 in
    let rest = header_lines hs ++ 13 ∷ 10 ∷ post in
    let e : n + n + 3 ≡ suc fuel = omega arith in
    let front = cut_line path (0 ∷ []) in
    let i = length (request_line path) + 2 in
    let line_length : length (path ++ 32 ∷ codes "HTTP/1.1") ≡ length path + 9 =
      length-append path _ in
    let front_length : length front ≡ i =
      omega (arith, length-append path (0 ∷ (codes "HTTP/1.1" ++ 0 ∷ 0 ∷ []))) in
    let plain : All IsPlain (request_line path) = (
      (ground arith, ground arith),
      (
        (ground arith, ground arith),
        (
          (ground arith, ground arith),
          ((ground arith, ground arith), ((ground arith, ground arith), line-IsPlain path h)),
        ),
      ),
    ) in
    let p = parse_line_lem c [] (request_line path) rest refl refl plain (omega arith) in
    let i' = 0 + length (request_line path) + 2 in
    let c' : Conn = record c { checked_idx = i'; start_line = i' } in
    let k' : Conn = record c { version = some (version_of path) } in
    let loop = process_loop files fuel in
    let split = append_assoc path (32 ∷ codes "HTTP/1.1") (0 ∷ 0 ∷ rest) in
    let joined = append_assoc path (0 ∷ (codes "HTTP/1.1" ++ 0 ∷ 0 ∷ [])) rest in
    let (d, v, q) =
      headers_IsFor files (b'/' ∷ path) hs fuel n k' front post hh
        (cut_url_in path (url_word path h)) (omega (arith, lines_length hs)) (omega arith) in
    (
      d,
      v,
      ap (λ f. process_loop files f line_ok c) e
          ∙ ap (λ p. on_line p.status (body files loop) (with_line p c)) p
          ∙ ap
              (λ bs.
                on_request_line (loop line_ok)
                  (parse_request_line 0 (record c' { read_buf = codes "GET" ++ (32 ∷ b'/' ∷ bs) })))
              split
          ∙ ap (on_request_line (loop line_ok))
              (parse_request_line_get path (0 ∷ rest) c' (url_word path h))
          ∙ ap₂ (λ bs j. loop line_ok (in_headers k' (codes "GET" ++ (0 ∷ b'/' ∷ bs)) n j j))
              (sym joined) (omega arith)
          ∙ q,
    )
