-- ===== src/Httpd/Response.antt =====
-- `do_http_response` of mini_httpd/mini_httpd.c.
pub mod Laws
use unix_network_programming.Base.{
  ℕ, ◌+◌, List, [], ◌∷◌, ◌++◌, codes, Option, none, some, Bool, true, false, ◌==◌, leb,
  if◌then◌else◌, length,
}
use unix_network_programming.Httpd.{
  Client, Files, Fault, read_before_url, write_past_path, Result, ok, fault, ◌>>=◌, not_found,
}
use unix_network_programming.Httpd.Serve.{serve_file}

-- sizeof(path)
abbrev pub path_size : ℕ
path_size = 256

-- A string and its null written to `path`, as by `sprintf` and `strcat`.
abbrev pub to_path : List ℕ → Result (List ℕ)
to_path p = if leb (length p + 1) path_size then ok p else fault write_past_path

-- `url[strlen(url) - 1]`
abbrev pub last_byte : List ℕ → Result ℕ
last_byte [] = fault read_before_url
last_byte (b ∷ []) = ok b
last_byte (b ∷ c ∷ bs) = last_byte (c ∷ bs)

abbrev pub slash : ℕ
slash = b'/'

-- `S_ISDIR`, and the call of `serve_file`.
pub respond : Files → List ℕ → Option Bool → Client → Result (Option Client)
respond fs path none c = ok (some (not_found c))
respond fs path (some is_dir) c = do
  target ← if is_dir then to_path (path ++ codes "/index.html") else ok path
  ok (serve_file fs target c)

-- It returns 0 on every path, so no value is modelled.
unfoldable pub do_http_response : Files → List ℕ → Client → Result (Option Client)
unfolding respond
do_http_response fs url c = do
  path ← to_path (codes "./htdocs" ++ url)
  last ← last_byte url
  full ← if last == slash then to_path (path ++ codes "index.html") else ok path
  respond fs full (fs.stat full) c
