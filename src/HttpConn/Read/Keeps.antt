-- ===== src/HttpConn/Read/Keeps.antt =====
-- The handlers of http_conn.cpp leave the indices of the buffer as they are.
use unix_network_programming.Base.{
  ℕ, suc, ◌≡◌, refl, Bool, true, false, Option, none, some, ◌==◌, if◌then◌else◌, codes,
}
use unix_network_programming.CString.{same_text}
use unix_network_programming.HttpConn.{
  header, HttpCode, no_request, bad_request, Conn, byte, starts_with,
}
use unix_network_programming.HttpConn.Request.{
  text_at, cut, behind_blanks, without_host, is_zero, check_url, on_version, on_url, blank_at,
  parse_headers,
}

-- The handlers leave both indices as they are.
abbrev pub KeepsIdx : ℕ → ℕ → HttpCode × Conn → Type 0
KeepsIdx checked n (code, c) = (c.checked_idx ≡ checked) × (c.read_idx ≡ n)

if_KeepsIdx :
    (checked n : ℕ) (b : Bool) (x y : HttpCode × Conn)
    → KeepsIdx checked n x
    → KeepsIdx checked n y
    → KeepsIdx checked n (if b then x else y)
if_KeepsIdx checked n true x y h k = h
if_KeepsIdx checked n false x y h k = k

check_url-KeepsIdx : (o : Option ℕ) (c : Conn) → KeepsIdx c.checked_idx c.read_idx (check_url o c)
check_url-KeepsIdx none c = (refl, refl)
check_url-KeepsIdx (some url) c =
    if_KeepsIdx c.checked_idx c.read_idx (byte c.read_buf url == b'/')
      (no_request, record c { url = some url; check_state = header })
      (bad_request, record c { url = some url }) (refl, refl) (refl, refl)

on_version-KeepsIdx :
    (url : ℕ) (o : Option ℕ) (c : Conn) → KeepsIdx c.checked_idx c.read_idx (on_version url o c)
on_version-KeepsIdx url none c = (refl, refl)
on_version-KeepsIdx url (some blank) c =
    let buf = cut c.read_buf blank in
    let version = behind_blanks c.read_buf blank in
    let seen : Conn = record c { read_buf = buf; url = some url; version = some version } in
    if_KeepsIdx c.checked_idx c.read_idx (same_text (text_at buf version) (codes "HTTP/1.1"))
      (check_url (without_host buf url) seen) (bad_request, seen)
      (check_url-KeepsIdx (without_host buf url) seen) (refl, refl)

pub on_url-KeepsIdx :
    (text : ℕ) (o : Option ℕ) (c : Conn) → KeepsIdx c.checked_idx c.read_idx (on_url text o c)
on_url-KeepsIdx text none c = (refl, refl)
on_url-KeepsIdx text (some blank) c =
    let buf = cut c.read_buf blank in
    let url = behind_blanks c.read_buf blank in
    if_KeepsIdx c.checked_idx c.read_idx (same_text (text_at buf text) (codes "GET"))
      (on_version url (blank_at buf url) (record c { read_buf = buf }))
      (bad_request, record c { read_buf = buf; url = some (suc blank) })
      (on_version-KeepsIdx url (blank_at buf url) (record c { read_buf = buf })) (refl, refl)

pub parse_headers-KeepsIdx :
    (text : ℕ) (c : Conn) → KeepsIdx c.checked_idx c.read_idx (parse_headers text c)
unfolding parse_headers
parse_headers-KeepsIdx text c =
    let line = text_at c.read_buf text in
    let keeps = if_KeepsIdx c.checked_idx c.read_idx in
    keeps (byte c.read_buf text == 0) _ _
      (keeps (is_zero c.content_length) _ _ (refl, refl) (refl, refl))
      (keeps (starts_with line (codes "Connection:")) _ _ (refl, refl)
        (keeps (starts_with line (codes "Content-Length:")) _ _ (refl, refl)
          (keeps (starts_with line (codes "Host:")) _ _ (refl, refl) (refl, refl))))
