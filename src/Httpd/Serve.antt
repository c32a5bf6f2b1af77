-- ===== src/Httpd/Serve.antt =====
-- `serve_file` of mini_httpd/mini_httpd.c.
pub mod Laws
use unix_network_programming.Base.{
  ℕ, zero, suc, ◌+◌, List, [], ◌∷◌, ◌++◌, codes, Option, none, some, Bool, true, false, ◌==◌,
  if◌then◌else◌, length,
}
use unix_network_programming.CString.{c_string}
use unix_network_programming.Httpd.{Client, Ending, at_eof, breaks, File, Files, send, not_found}

abbrev pub newline : ℕ
newline = 10

-- sizeof(file_content) - 1
abbrev pub content_size : ℕ
content_size = 1023

-- What one `fgets` stores from a file: at most `k` bytes, up to a newline; `at_end` is the
-- end-of-file flag, set where the file runs out before that. A read error does not set it.
pub record Gets : Type 0 where
  pub part : List ℕ
  pub rest : List ℕ
  pub at_end : Bool

abbrev put_front : ℕ → Gets → Gets
put_front b g = record g { part = b ∷ g.part }

-- No byte is left to read.
abbrev pub run_out : Ending → Gets
run_out at_eof = record { part = []; rest = []; at_end = true }
run_out (breaks stale) = record { part = stale; rest = []; at_end = false }

pub fgets : ℕ → Ending → List ℕ → Gets
fgets zero e bs = record { part = []; rest = bs; at_end = false }
fgets (suc k) e [] = run_out e
fgets (suc k) e (b ∷ bs) =
    if b == newline
    then record { part = b ∷ []; rest = bs; at_end = false }
    else put_front b (fgets k e bs)

-- `while (!feof(resource)) { write(…, strlen(file_content)); fgets(…); }`, given what the `fgets`
-- before it took; `none` means that the fuel ran out.
pub copy_loop : ℕ → Ending → Gets → Client → Option Client
copy_loop zero e g c = none
copy_loop (suc fuel) e g c =
    let again = copy_loop fuel e (fgets content_size e g.rest) (send (c_string g.part) c) in
    if g.at_end then some c else again

abbrev pub main_header : List ℕ
main_header =
    codes "HTTP/1.0 200 OK\r\nServer: Mini-httpd\r\nContent-Type: text/html\r\n"
    ++ codes "charset=\"zh-CN\"\r\nConnection: Close\r\n\r\n"

-- Each round but the last takes at least one byte of the file, unless a read fails.
abbrev pub copy_file : File → Client → Option Client
copy_file file c =
    copy_loop (length file.bytes + 2) file.ending (fgets content_size file.ending file.bytes)
      (send main_header c)

abbrev pub serve_opened : Option File → Client → Option Client
serve_opened none c = some (not_found c)
serve_opened (some file) c = copy_file file c

unfoldable pub serve_file : Files → List ℕ → Client → Option Client
unfolding copy_loop fgets not_found
serve_file fs filename c = serve_opened (fs.fopen filename) c
