-- ===== src/HttpConn/Read/Headers.antt =====
-- The headers of a request in http_conn.cpp, from a line on.
use unix_network_programming.Base.{
  ℕ, zero, suc, ◌+◌, ◌≤◌, ◌≡◌, ◌≢◌, refl, sym, ap, ap₂, subst, ◌∙◌, List, [], ◌∷◌, ◌++◌,
  append_assoc, codes, Bool, true, false, some, ◌==◌, if◌then◌else◌, then_branch, else_branch,
  length, length-append, All, arith,
}
use unix_network_programming.CString.{same_text}
use unix_network_programming.HttpConn.{
  header, HttpCode, no_request, get_request, line_ok, pos, Files, Conn, byte, starts_with, atoi,
}
use unix_network_programming.HttpConn.Line.Laws.{IsPlain, byte-append, parse_line_lem}
use unix_network_programming.HttpConn.Request.{
  text_at, value_at, real_file, on_stat, parse_headers, do_request,
}
use unix_network_programming.HttpConn.Request.Laws.{text_at-append}
use unix_network_programming.HttpConn.Read.{
  Answer, answered, on_header, switch, body, with_line, on_line, process_loop,
}

-- A connection in the headers, with the URL at 4 and no content announced.
abbrev pub in_headers : Conn → List ℕ → ℕ → ℕ → ℕ → Conn
in_headers k buf n checked start = record k {
  read_buf = buf;
  read_idx = n;
  checked_idx = checked;
  start_line = start;
  check_state = header;
  url = some 4;
  content_length = pos 0;
}

-- A header line: a text of one line that is not the length of a content.
abbrev pub IsTextByte : ℕ → Type 0
IsTextByte b = (b ≢ 0) × IsPlain b

abbrev pub IsHeader : List ℕ → Type 0
IsHeader [] = ⊥
IsHeader (b ∷ h) = All IsTextByte (b ∷ h) × (starts_with (b ∷ h) (codes "Content-Length:") ≡ false)

abbrev pub header_lines : List (List ℕ) → List ℕ
header_lines [] = []
header_lines (h ∷ hs) = h ++ 13 ∷ 10 ∷ header_lines hs

text_no_null : (h : List ℕ) → All IsTextByte h → All (λ b. b ≢ 0) h
text_no_null [] t = tt
text_no_null (b ∷ h) ((n, p), ts) = (n, text_no_null h ts)

text-IsPlain : (h : List ℕ) → All IsTextByte h → All IsPlain h
text-IsPlain [] t = tt
text-IsPlain (b ∷ h) ((n, p), ts) = (p, text-IsPlain h ts)

-- A handler that asks for more and keeps the connection in the headers.
abbrev pub Stays : List ℕ → List ℕ → ℕ → ℕ → ℕ → HttpCode × Conn → Type 0
Stays w buf n checked start r =
    (k : Conn) × (k.write_buf ≡ w) × (r ≡ (no_request, in_headers k buf n checked start))

if_Stays :
    (w buf : List ℕ) (n checked start : ℕ) (b : Bool) (x y : HttpCode × Conn)
    → Stays w buf n checked start x
    → Stays w buf n checked start y
    → Stays w buf n checked start (if b then x else y)
if_Stays w buf n checked start true x y h k = h
if_Stays w buf n checked start false x y h k = k

parse_headers-Stays :
    (k : Conn) (pre : List ℕ) (b : ℕ) (h more : List ℕ) (n i : ℕ)
    → IsHeader (b ∷ h)
    → (let buf = pre ++ (b ∷ (h ++ 0 ∷ 0 ∷ more)) in
        Stays k.write_buf buf n i i (parse_headers (length pre) (in_headers k buf n i i)))
unfolding parse_headers
parse_headers-Stays k pre b h more n i (((z, p), ts), l) =
    let buf = pre ++ (b ∷ (h ++ 0 ∷ 0 ∷ more)) in
    let c = in_headers k buf n i i in
    let line = text_at buf (length pre) in
    let e : line ≡ b ∷ h = text_at-append pre (b ∷ h) (0 ∷ more) (z, text_no_null h ts) in
    let first = byte-append pre b (h ++ 0 ∷ 0 ∷ more) in
    let kept : HttpCode × Conn = (
      no_request,
      record c {
        linger =
            if same_text (text_at buf (value_at buf (length pre + 11))) (codes "keep-alive")
            then true
            else c.linger;
      },
    ) in
    let measured : HttpCode × Conn = (
      no_request,
      record c { content_length = atoi (text_at buf (value_at buf (length pre + 15))) },
    ) in
    let hosted : HttpCode × Conn =
      (no_request, record c { host = some (value_at buf (length pre + 5)) }) in
    let other : HttpCode × Conn = (no_request, c) in
    let host = if starts_with line (codes "Host:") then hosted else other in
    let size = if starts_with line (codes "Content-Length:") then measured else host in
    subst (Stays k.write_buf buf n i i)
      (sym (else_branch {b = byte buf (length pre) == 0} _ _ (ground arith)))
      (if_Stays k.write_buf buf n i i (starts_with line (codes "Connection:")) kept size
        (record k { linger = kept.1.linger }, refl, refl)
        (subst (Stays k.write_buf buf n i i)
          (sym (
            else_branch {b = starts_with line (codes "Content-Length:")} measured host
              (ap (λ t. starts_with t (codes "Content-Length:")) e ∙ l)))
          (if_Stays k.write_buf buf n i i (starts_with line (codes "Host:")) hosted other
            (record k { host = hosted.1.host }, refl, refl) (k, refl, refl))))

-- What a part of the buffer holds of the URL, whatever follows it.
abbrev pub HasUrl : List ℕ → List ℕ → Type 0
HasUrl url front = (ys : List ℕ) → text_at (front ++ ys) 4 ≡ url

-- The answer for the file that the URL names, with the write buffer as it was.
abbrev pub IsFor : Files → List ℕ → List ℕ → Answer → Type 0
IsFor files w url a =
    (d : Conn) × (d.write_buf ≡ w) × (a ≡ answered (on_stat (files (real_file url)) d))

-- One round on a line in the headers.
round_lem :
    (files : Files) (fuel n : ℕ) (k : Conn) (front line post : List ℕ)
    → All IsPlain line
    → length front + length line + 2 ≤ n
    → (let i = length front + length line + 2 in
        let buf = front ++ (line ++ 0 ∷ 0 ∷ post) in
        process_loop files
          (suc fuel)
          line_ok
          (in_headers k (front ++ (line ++ 13 ∷ 10 ∷ post)) n (length front) (length front))
        ≡ on_header files
            (process_loop files fuel line_ok)
            (parse_headers (length front) (in_headers k buf n i i)))
unfolding process_loop switch
round_lem files fuel n k front line post h l =
    let c = in_headers k (front ++ (line ++ 13 ∷ 10 ∷ post)) n (length front) (length front) in
    ap (λ p. on_line p.status (body files (process_loop files fuel)) (with_line p c))
      (parse_line_lem c front line post refl refl h l)

assoc_line :
    (front line ys : List ℕ) → front ++ (line ++ 0 ∷ 0 ∷ ys) ≡ (front ++ (line ++ 0 ∷ 0 ∷ [])) ++ ys
assoc_line front line ys =
    ap (◌++◌ front) (sym (append_assoc line (0 ∷ 0 ∷ []) ys))
    ∙ sym (append_assoc front (line ++ 0 ∷ 0 ∷ []) ys)

length_line :
    (front line : List ℕ) → length (front ++ (line ++ 0 ∷ 0 ∷ [])) ≡ length front + length line + 2
length_line front line =
    omega (arith, length-append front (line ++ 0 ∷ 0 ∷ []), length-append line (0 ∷ 0 ∷ []))

blank_line :
    (k : Conn) (front post : List ℕ) (n i : ℕ)
    → (let c = in_headers k (front ++ (0 ∷ 0 ∷ post)) n i i in
        parse_headers (length front) c ≡ (get_request, c))
unfolding parse_headers
blank_line k front post n i =
    then_branch {b = byte (front ++ (0 ∷ 0 ∷ post)) (length front) == 0} _ _
      (ap (λ x. x == 0) (byte-append front 0 (0 ∷ post)))

request_lem :
    (files : Files) (c : Conn) (url : List ℕ)
    → text_at c.read_buf 4 ≡ url
    → answered (do_request files (record c { url = some 4 }))
      ≡ answered (on_stat (files (real_file url)) (record c { url = some 4 }))
unfolding do_request
request_lem files c url e =
    ap (λ t. answered (on_stat (files (real_file t)) (record c { url = some 4 }))) e

-- The headers, from the start of a line on.
pub headers_IsFor :
    (files : Files) (url : List ℕ) (hs : List (List ℕ)) (fuel n : ℕ) (k : Conn)
    (front post : List ℕ)
    → All IsHeader hs
    → HasUrl url front
    → length hs + 1 ≤ fuel
    → length front + length (header_lines hs) + 2 ≤ n
    → IsFor files k.write_buf url (
        process_loop files fuel line_ok (
          in_headers k
            (front ++ (header_lines hs ++ 13 ∷ 10 ∷ post))
            n
            (length front)
            (length front)))
headers_IsFor files url hs zero n k front post h u f l = absurd (omega arith)
headers_IsFor files url [] (suc fuel) n k front post h u f l =
    let i = length front + 0 + 2 in
    let c = in_headers k (front ++ (0 ∷ 0 ∷ post)) n i i in
    (
      c,
      refl,
      round_lem files fuel n k front [] post tt l
          ∙ ap (on_header files (process_loop files fuel line_ok)) (blank_line k front post n i)
          ∙ request_lem files c url (u (0 ∷ 0 ∷ post)),
    )
headers_IsFor files url ([] ∷ hs) (suc fuel) n k front post (h, hs') u f l = absurd h
headers_IsFor files url ((b ∷ t) ∷ hs) (suc fuel) n k front post (h, hs') u f l =
    let line = b ∷ t in
    let more = header_lines hs ++ 13 ∷ 10 ∷ post in
    let i = length front + length line + 2 in
    let next = front ++ (line ++ 0 ∷ 0 ∷ []) in
    let loop = process_loop files fuel line_ok in
    let m = length-append line (13 ∷ 10 ∷ header_lines hs) in
    let (k', w, e) = parse_headers-Stays k front b t more n i h in
    let (d, v, q) =
      headers_IsFor files url hs fuel n k' next post hs'
        (λ ys.
          ap (λ bs. text_at bs 4) (append_assoc front (line ++ 0 ∷ 0 ∷ []) ys)
          ∙ u ((line ++ 0 ∷ 0 ∷ []) ++ ys))
        (omega arith) (omega (arith, length_line front line, m)) in
    (
      d,
      v ∙ w,
      ap
            (λ bs.
              process_loop files (suc fuel) line_ok
                (in_headers k (front ++ bs) n (length front) (length front)))
            (append_assoc line (13 ∷ 10 ∷ header_lines hs) (13 ∷ 10 ∷ post))
          ∙ round_lem files fuel n k front line more (text-IsPlain line h.0) (omega (arith, m))
          ∙ ap (on_header files loop) e
          ∙ ap₂ (λ bs j. loop (in_headers k' bs n j j)) (assoc_line front line more)
              (sym (length_line front line))
          ∙ q,
    )
