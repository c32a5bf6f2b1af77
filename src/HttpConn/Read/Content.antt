-- ===== src/HttpConn/Read/Content.antt =====
-- The content of a request in http_conn.cpp: where it comes in two parts, and where its length is negative.
use unix_network_programming.Base.{
  ℕ, zero, suc, ◌+◌, ◌-◌, ◌≤◌, ◌<◌, ◌≡◌, ap, ◌∙◌, List, leb, then_branch, else_branch, arith,
}
use unix_network_programming.HttpConn.{
  content, no_request, line_ok, line_open, Files, Conn, byte, ℤ, pos, negsuc,
}
use unix_network_programming.HttpConn.Line.{parsed, parse_from, parse_line}
use unix_network_programming.HttpConn.Line.Laws.{IsPlain, parse_from_plain}
use unix_network_programming.HttpConn.Request.{end_content, step, parse_content}
use unix_network_programming.HttpConn.Read.{
  answer, undefined, on_content, switch, body, with_line, on_line, process_loop, process_read,
}

-- A connection in the content of a request, of the length `n`.
abbrev pub in_content : Conn → ℤ → Conn
in_content c n = record c { check_state = content; content_length = n }

-- Bytes that end no line are checked, and no line is found.
parse_from_open :
    (left i : ℕ) (buf : List ℕ)
    → ((j : ℕ) → IsPlain (byte buf j))
    → parse_from left i buf ≡ parsed line_open (i + left) buf
unfolding parse_from
parse_from_open zero i buf h = ap (λ n. parsed line_open n buf) (omega arith)
parse_from_open (suc left) i buf h =
    parse_from_plain left i buf (h i)
    ∙ parse_from_open left (suc i) buf h
    ∙ ap (λ n. parsed line_open n buf) (omega arith)

parse_content_waits :
    (text n : ℕ) (c : Conn)
    → c.read_idx < n + c.checked_idx
    → parse_content text (in_content c (pos n)) ≡ step no_request (in_content c (pos n))
unfolding parse_content
parse_content_waits text n c l =
    else_branch {b = leb (n + c.checked_idx) c.read_idx} _ _ (ground arith)

-- What a call leaves that finds the content incomplete: all that was read is taken for checked.
abbrev pub waiting : Conn → ℕ → Conn
waiting c n = record c {
  check_state = content;
  content_length = pos n;
  start_line = c.checked_idx;
  checked_idx = c.checked_idx + (c.read_idx - c.checked_idx);
}

process_read_waits :
    (files : Files) (n : ℕ) (c : Conn)
    → c.read_idx < n + c.checked_idx
    → ((j : ℕ) → IsPlain (byte c.read_buf j))
    → process_read files (in_content c (pos n)) ≡ answer no_request (waiting c n)
unfolding process_read process_loop switch parse_line
process_read_waits files n c l h =
    let c' : Conn = record c { start_line = c.checked_idx } in
    let fuel = c.read_idx + c.read_idx + 1 in
    let loop = process_loop files fuel in
    let two : c.read_idx + c.read_idx + 3 ≡ suc (suc fuel) = omega arith in
    ap (λ f. process_loop files f line_ok (in_content c (pos n))) two
    ∙ ap (on_content files (process_loop files (suc fuel) line_open))
        (parse_content_waits c.start_line n c' l)
    ∙ ap (λ p. on_line p.status (body files loop) (with_line p (in_content c' (pos n))))
        (parse_from_open (c.read_idx - c.checked_idx) c.checked_idx c.read_buf h)

-- A content without line ends that comes in two parts is waited for in vain: when the second part has
-- come too, and all n bytes are there, process_read still asks for more.
pub content_waits :
    (files : Files) (n : ℕ) (c : Conn) (buf : List ℕ)
    → c.checked_idx < c.read_idx
    → c.read_idx < n + c.checked_idx
    → ((j : ℕ) → IsPlain (byte c.read_buf j))
    → ((j : ℕ) → IsPlain (byte buf j))
    → (d : Conn) × (process_read files (in_content c (pos n)) ≡ answer no_request d)
      × ((e : Conn) × (process_read files
              (record d { read_buf = buf; read_idx = n + c.checked_idx })
            ≡ answer no_request e))
content_waits files n c buf k l h g =
    let d = waiting c n in
    let whole : Conn = record d { read_buf = buf; read_idx = n + c.checked_idx } in
    (
      d,
      process_read_waits files n c l h,
      (waiting whole n, process_read_waits files n whole (omega arith) g),
    )

-- Where a request announces a content of less than 0 bytes, by more than the bytes in front of it,
-- process_read writes a null in front of its buffer.
pub content_underflow :
    (files : Files) (n : ℕ) (c : Conn)
    → c.start_line ≤ n
    → c.checked_idx ≤ c.read_idx
    → process_read files (in_content c (negsuc n)) ≡ undefined
unfolding process_read process_loop switch parse_content
content_underflow files n c l k =
    let e : c.read_idx + c.read_idx + 3 ≡ suc (c.read_idx + c.read_idx + 2) = omega arith in
    let c' : Conn = record c {
      start_line = c.checked_idx;
      check_state = content;
      content_length = negsuc n;
    } in
    ap (λ f. process_loop files f line_ok (in_content c (negsuc n))) e
    ∙ ap (on_content files (process_loop files (c.read_idx + c.read_idx + 2) line_open)) (
        then_branch {b = leb c.checked_idx (c.read_idx + suc n)} _ _ (ground arith)
        ∙ ap (λ o. end_content o c')
            (else_branch {b = leb (suc n) c.start_line} _ _ (ground arith)))
