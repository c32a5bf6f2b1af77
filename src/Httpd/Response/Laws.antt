-- ===== src/Httpd/Response/Laws.antt =====
-- Which file `do_http_response` serves, and when it leaves defined behaviour.
use unix_network_programming.Base.{
  ℕ, ◌+◌, ◌≤◌, ◌≡◌, ◌≢◌, refl, List, [], ◌∷◌, ◌++◌, codes, Option, none, some, Bool, true, false,
  ◌==◌, if◌then◌else◌, le→leb, gt→leb, arith, length, length-append, Bool-cases, Option-cases,
  append-nil, inl, inr,
}
use unix_network_programming.Httpd.{
  Client, Files, write_past_path, ok, fault, Ensures, Result-cases, not_found,
}
use unix_network_programming.Httpd.Serve.{serve_file}
use unix_network_programming.Httpd.Serve.Laws.{Reads, Breaks, serve_file_ends, serve_file_served}
use unix_network_programming.Httpd.Response.{
  path_size, to_path, last_byte, slash, respond, do_http_response,
}

abbrev pub ends_in_slash : List ℕ → Bool
ends_in_slash [] = false
ends_in_slash (b ∷ []) = b == slash
ends_in_slash (b ∷ c ∷ bs) = ends_in_slash (c ∷ bs)

-- The file that a URL names, and the one below it that stands for a directory.
abbrev pub named : List ℕ → List ℕ
named url = (codes "./htdocs" ++ url) ++ (if ends_in_slash url then codes "index.html" else [])

abbrev pub index_of : List ℕ → List ℕ
index_of path = path ++ codes "/index.html"

abbrev pub answer : Files → List ℕ → Client → Option Client
answer fs path c = elim (fs.stat path) [
  | none ↦ some (not_found c)
  | some is_dir ↦ serve_file fs (if is_dir then index_of path else path) c
]

-- The longest URL for which `path` holds every extension.
abbrev pub url_limit : ℕ
url_limit = 226

to_path_fits : (p : List ℕ) → length p + 1 ≤ path_size → to_path p ≡ ok p
to_path_fits p h = rw (le→leb (length p + 1) path_size h)

last_byte_nonempty :
    (b : ℕ) (bs : List ℕ)
    → (c : ℕ) × (last_byte (b ∷ bs) ≡ ok c) × ((c == slash) ≡ ends_in_slash (b ∷ bs))
last_byte_nonempty b [] = (b, refl, refl)
last_byte_nonempty b (c ∷ bs) = last_byte_nonempty c bs

respond_lem :
    (fs : Files) (path : List ℕ) (c : Client)
    → length path + 12 ≤ path_size
    → respond fs path (fs.stat path) c ≡ ok (answer fs path c)
unfolding respond
respond_lem fs path c h = elim (Option-cases (fs.stat path)) [
  | inl missing ↦ rw (missing, answer)
  | inr (true, dir) ↦ rw (
    dir,
    answer,
    to_path_fits (index_of path) (omega (arith, length-append path (codes "/index.html"))),
  )
  | inr (false, file) ↦ rw (file, answer)
]

-- A URL that is not empty and no longer than the limit is answered without a fault, from the file
-- that it names below ./htdocs.
pub do_http_response_lem :
    (fs : Files) (url : List ℕ) (c : Client)
    → url ≢ []
    → length url ≤ url_limit
    → do_http_response fs url c ≡ ok (answer fs (named url) c)
unfolding do_http_response
do_http_response_lem fs [] c n h = absurd (n refl)
do_http_response_lem fs (b ∷ bs) c n h =
    let (last, is_last, slashed) = last_byte_nonempty b bs in
    rw (to_path_fits (codes "./htdocs" ++ (b ∷ bs)) (omega arith), is_last, slashed)
      (elim (Bool-cases (ends_in_slash (b ∷ bs))) [
        | inl yes_slash ↦
            let grown = length-append (b ∷ bs) (codes "index.html") in
            rw
              (
                yes_slash,
                to_path_fits (codes "./htdocs" ++ ((b ∷ bs) ++ codes "index.html"))
                    (omega (arith, grown)),
              )
              (respond_lem fs (codes "./htdocs" ++ ((b ∷ bs) ++ codes "index.html")) c
                (omega (arith, grown)))
        | inr no_slash ↦
            rw (no_slash, append-nil bs)
              (respond_lem fs (codes "./htdocs" ++ (b ∷ bs)) c (omega arith))
      ])

-- Every URL of 248 bytes or more makes the server write behind the end of `path`.
pub do_http_response_overflow :
    (fs : Files) (url : List ℕ) (c : Client)
    → 248 ≤ length url
    → do_http_response fs url c ≡ fault write_past_path
unfolding do_http_response
do_http_response_overflow fs url c h =
    rw (gt→leb (length (codes "./htdocs" ++ url) + 1) path_size (omega arith))

-- The answer ends where the files can be read, and reads nothing from the client.
pub answer_ends :
    (fs : Files) (path : List ℕ) (c : Client)
    → Reads fs
    → (c' : Client) × (answer fs path c ≡ some c') × (c'.input ≡ c.input)
unfolding not_found
answer_ends fs path c h = elim (Option-cases (fs.stat path)) [
  | inl missing ↦ rw (missing, answer) (not_found c, refl, refl)
  | inr (is_dir, there) ↦
      rw (there, answer) (serve_file_ends fs (if is_dir then index_of path else path) c h)
]

-- A response that reached an answer; it has none only where a file breaks off.
abbrev pub IsAnswered : Files → Option Client → Type 0
IsAnswered fs none = Breaks fs
IsAnswered fs (some c) = Unit

serve_file-IsAnswered :
    (fs : Files) (path : List ℕ) (c : Client) → IsAnswered fs (serve_file fs path c)
serve_file-IsAnswered fs path c = elim (serve_file_served fs path c) [
  | inl (c', runs) ↦ rw runs tt
  | inr broken ↦ IsAnswered_any (serve_file fs path c) broken
]
  where
    IsAnswered_any : (o : Option Client) → Breaks fs → IsAnswered fs o
    IsAnswered_any none b = b
    IsAnswered_any (some c') b = tt

respond-IsAnswered :
    (fs : Files) (path : List ℕ) (found : Option Bool) (c : Client)
    → Ensures (IsAnswered fs) (respond fs path found c)
unfolding respond
respond-IsAnswered fs path none c = tt
respond-IsAnswered fs path (some false) c = serve_file-IsAnswered fs path c
respond-IsAnswered fs path (some true) c = elim (Result-cases (to_path (index_of path))) [
  | inl (target, e) ↦ rw e (serve_file-IsAnswered fs target c)
  | inr (x, e) ↦ rw e tt
]

pub do_http_response-IsAnswered :
    (fs : Files) (url : List ℕ) (c : Client) → Ensures (IsAnswered fs) (do_http_response fs url c)
unfolding do_http_response
do_http_response-IsAnswered fs url c = elim (Result-cases (to_path (codes "./htdocs" ++ url))) [
  | inr (x, e) ↦ rw e tt
  | inl (path, e) ↦ elim (Result-cases (last_byte url)) [
    | inr (x, e') ↦ rw (e, e') tt
    | inl (last, e') ↦
        rw (e, e')
          (elim (Result-cases
            (if last == slash then to_path (path ++ codes "index.html") else ok path)) [
              | inr (x, e'') ↦ rw e'' tt
              | inl (full, e'') ↦ rw e'' (respond-IsAnswered fs full (fs.stat full) c)
            ])
  ]
]
