-- ===== src/HttpConn/Request/Laws.antt =====
-- What `parse_request_line` of http_conn.cpp makes of a request line for a path.
use unix_network_programming.Base.{
  ℕ, suc, ◌+◌, ◌≡◌, ◌≢◌, refl, ap, ap₂, ◌∙◌, List, [], ◌∷◌, ◌++◌, codes, some, ◌==◌, if◌then◌else◌,
  then_branch, else_branch, length, drop, set-append, All, arith,
}
use unix_network_programming.CString.{c_string, same_text}
use unix_network_programming.HttpConn.{
  header, no_request, bad_request, Conn, byte, is_blank, blanks, first, later,
}
use unix_network_programming.HttpConn.Request.{
  text_at, behind, cut, behind_blanks, without_host, check_url, on_version, parse_request_line,
}

-- A byte of a word: no null, blank or tab.
abbrev pub IsWordByte : ℕ → Type 0
IsWordByte b = (b ≢ 0) × ((b ≢ 32) × (b ≢ 9))

c_string_part : (w ys : List ℕ) → All (λ b. b ≢ 0) w → c_string (w ++ 0 ∷ ys) ≡ w
c_string_part [] ys h = refl
c_string_part (b ∷ w) ys (h, hs) =
    else_branch {b = b == 0} _ _ (ground arith) ∙ ap (◌∷◌ b) (c_string_part w ys hs)

drop-append : (xs ys : List ℕ) → drop (length xs) (xs ++ ys) ≡ ys
drop-append [] ys = refl
drop-append (x ∷ xs) ys = drop-append xs ys

-- The string behind a part of the buffer.
pub text_at-append :
    (pre w ys : List ℕ) → All (λ b. b ≢ 0) w → text_at (pre ++ (w ++ 0 ∷ ys)) (length pre) ≡ w
text_at-append pre w ys h = ap c_string (drop-append pre (w ++ 0 ∷ ys)) ∙ c_string_part w ys h

word_no_null : (w : List ℕ) → All IsWordByte w → All (λ b. b ≢ 0) w
word_no_null [] h = tt
word_no_null (b ∷ w) ((n, m), hs) = (n, word_no_null w hs)

first_blank :
    (w ys : List ℕ) → All IsWordByte w → first is_blank (c_string (w ++ 32 ∷ ys)) ≡ some (length w)
first_blank [] ys h = refl
first_blank (b ∷ w) ys ((n, (s, t)), hs) =
    ap (first is_blank) (else_branch {b = b == 0} _ _ (ground arith))
    ∙ else_branch {b = is_blank b} _ _ (ground arith)
    ∙ ap later (first_blank w ys hs)

on_version_lem :
    (blank v url : ℕ) (buf : List ℕ) (c : Conn)
    → cut c.read_buf blank ≡ buf
    → behind_blanks c.read_buf blank ≡ v
    → text_at buf v ≡ codes "HTTP/1.1"
    → without_host buf url ≡ some url
    → byte buf url ≡ b'/'
    → on_version url (some blank) c ≡ (
      no_request,
      record c { read_buf = buf; url = some url; version = some v; check_state = header },
    )
on_version_lem blank v url buf c e f t w b =
    ap₂
      (λ bf ver.
        if same_text (text_at bf ver) (codes "HTTP/1.1")
        then check_url (without_host bf url)
            (record c { read_buf = bf; url = some url; version = some ver })
        else (bad_request, record c { read_buf = bf; url = some url; version = some ver }))
      e f
    ∙ then_branch {b = same_text (text_at buf v) (codes "HTTP/1.1")} _ _
        (ap (λ x. same_text x (codes "HTTP/1.1")) t)
    ∙ ap (λ o. check_url o (record c { read_buf = buf; url = some url; version = some v })) w
    ∙ then_branch {b = byte buf url == b'/'} _ _ (ap (λ x. x == b'/') b)

-- The first line in the buffer, and what becomes of it: `path` is the URL without its slash, and the
-- line ends in a null.
abbrev pub get_line : List ℕ → List ℕ → List ℕ
get_line path rest = codes "GET" ++ (32 ∷ b'/' ∷ (path ++ (32 ∷ (codes "HTTP/1.1" ++ 0 ∷ rest))))

abbrev pub cut_line : List ℕ → List ℕ → List ℕ
cut_line path rest = codes "GET" ++ (0 ∷ b'/' ∷ (path ++ (0 ∷ (codes "HTTP/1.1" ++ 0 ∷ rest))))

abbrev pub version_of : List ℕ → ℕ
version_of path = length path + 6

-- The buffer between the two cuts, up to the URL's end.
abbrev pub half : List ℕ → List ℕ
half path = codes "GET" ++ (0 ∷ b'/' ∷ path)

pub url_in :
    (path rest : List ℕ) → All IsWordByte path → text_at (cut_line path rest) 4 ≡ b'/' ∷ path
url_in path rest h =
    ap (◌∷◌ b'/') (c_string_part path (codes "HTTP/1.1" ++ 0 ∷ rest) (word_no_null path h))

no_host : (path rest : List ℕ) → All IsWordByte path → without_host (cut_line path rest) 4 ≡ some 4
no_host path rest h = refl

cut_url :
    (path rest : List ℕ)
    → cut (half path ++ (32 ∷ (codes "HTTP/1.1" ++ 0 ∷ rest))) (length path + 5)
      ≡ cut_line path rest
cut_url path rest =
    let e : length path + 5 ≡ length (half path) = omega arith in
    ap (cut (half path ++ (32 ∷ (codes "HTTP/1.1" ++ 0 ∷ rest)))) e
    ∙ set-append (half path) 32 0 (codes "HTTP/1.1" ++ 0 ∷ rest)

version_in :
    (path rest : List ℕ) → text_at (cut_line path rest) (version_of path) ≡ codes "HTTP/1.1"
version_in path rest =
    let e : version_of path ≡ suc (length (half path)) = omega arith in
    ap (text_at (cut_line path rest)) e
    ∙ ap c_string (drop_next (half path) 0 (codes "HTTP/1.1" ++ 0 ∷ rest))
  where
    drop_next : (xs : List ℕ) (y : ℕ) (ys : List ℕ) → drop (suc (length xs)) (xs ++ y ∷ ys) ≡ ys
    drop_next [] y ys = refl
    drop_next (x ∷ xs) y ys = drop_next xs y ys

version_at :
    (path rest : List ℕ)
    → behind_blanks (half path ++ (32 ∷ (codes "HTTP/1.1" ++ 0 ∷ rest))) (length path + 5)
      ≡ version_of path
version_at path rest =
    let e : suc (length path + 5) ≡ version_of path = omega arith in
    ap₂ (λ buf i. i + blanks (text_at buf i)) (cut_url path rest) e
    ∙ ap (λ t. version_of path + blanks t) (version_in path rest)
    ∙ omega arith

-- For the line "GET /path HTTP/1.1" at the start of the buffer, where the path has no null, blank or
-- tab: parse_request_line puts nulls behind the method and the URL, and m_url and m_version there.
pub parse_request_line_get :
    (path rest : List ℕ) (c : Conn)
    → All IsWordByte path
    → parse_request_line 0 (record c { read_buf = get_line path rest }) ≡ (
      no_request,
      record c {
        read_buf = cut_line path rest;
        url = some 4;
        version = some (version_of path);
        check_state = header;
      },
    )
unfolding parse_request_line
parse_request_line_get path rest c h =
    let c' : Conn = record c { read_buf = half path ++ (32 ∷ (codes "HTTP/1.1" ++ 0 ∷ rest)) } in
    let e : 4 + suc (length path) ≡ length path + 5 = omega arith in
    ap (λ o. on_version 4 (behind 4 (later o)) c')
      (first_blank path (codes "HTTP/1.1" ++ 0 ∷ rest) h)
    ∙ ap (λ i. on_version 4 (some i) c') e
    ∙ on_version_lem (length path + 5) (version_of path) 4 (cut_line path rest) c'
        (cut_url path rest) (version_at path rest) (version_in path rest) (no_host path rest h) refl
