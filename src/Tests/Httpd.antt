-- ===== src/Tests/Httpd.antt =====
-- The HTTP server of mini_httpd at concrete requests.
use unix_network_programming.Base.{
  ℕ, ◌+◌, ◌-◌, ◌≤◌, ◌≡◌, refl, ◌++◌, List, [], ◌∷◌, some, none, codes, length, replicate, arith,
  false, if◌then◌else◌,
}
use unix_network_programming.ByteIo.{Arrival, chunk, size}
use unix_network_programming.CString.{same_bytes}
use unix_network_programming.Httpd.{
  Client, at_eof, breaks, File, Files, ok, fault, read_before_url, read_past_buf, send,
}
use unix_network_programming.Httpd.Line.{get_line}
use unix_network_programming.Httpd.Line.Laws.{readable, take_line, stored_line, get_line_lem}
use unix_network_programming.Httpd.Serve.{main_header, serve_file}
use unix_network_programming.Httpd.Serve.Laws.{IsCopy, serve_file-IsCopy}
use unix_network_programming.Httpd.Response.{do_http_response}
use unix_network_programming.Httpd.Request.{served, out_of_fuel, do_http_request}
use unix_network_programming.Httpd.Request.Laws.{IsRequest}
use unix_network_programming.Httpd.Request.Replies.{request_line}

-- One page of two lines, and one without a newline.
abbrev page : List ℕ
page = codes "<p>a\nb\n"

abbrev whole : List ℕ → File
whole bytes = record { bytes = bytes; ending = at_eof }

abbrev files : Files
files = record {
  stat = λ p. if same_bytes p (codes "./htdocs/a") then some false else none;
  fopen = λ p.
      if same_bytes p (codes "./htdocs/a")
      then some (whole page)
      else if same_bytes p (codes "./htdocs/b")
      then some (whole (codes "no newline"))
      else none;
}

abbrev stack_junk : List ℕ
stack_junk = replicate 256 7

abbrev sends : List ℕ → Client
sends bytes = record { input = chunk bytes ∷ []; output = [] }

abbrev get_a : Client
get_a = sends (codes "GET  /a HTTP/1.0\r\nHost: x\r\n\r\n")

abbrev post_a : Client
post_a = sends (codes "POST /a HTTP/1.0\r\n\r\n")

get_a_served :
    do_http_request files stack_junk get_a
    ≡ ok (served (record { input = []; output = main_header ∷ codes "<p>a\n" ∷ codes "b\n" ∷ [] }))
unfolding do_http_request get_line do_http_response serve_file
get_a_served = refl

get_line_lem_example :
    (rest : List Arrival) × (get_line 256 stack_junk get_a.input
      ≡ some (record {
        count = length (take_line (256 - 1) (readable get_a.input));
        buf = stored_line (256 - 1) (readable get_a.input) stack_junk;
        input = rest;
      }))
    × (size rest + length (take_line (256 - 1) (readable get_a.input)) ≤ size get_a.input)
get_line_lem_example = get_line_lem 256 stack_junk get_a.input (omega arith) (omega arith)

-- The second line is not finished.
abbrev half : Files
half = record files { fopen = λ p. some (whole (codes "one\ntwo")) }

serve_file-IsCopy_example :
    IsCopy (codes "one\ntwo") (send main_header get_a) (serve_file half (codes "./htdocs/a") get_a)
serve_file-IsCopy_example = serve_file-IsCopy half (codes "./htdocs/a") get_a refl (omega arith)

lost_line : serve_file half [] get_a ≡ some (send (codes "one\n") (send main_header get_a))
unfolding serve_file
lost_line = refl

-- The URL that is empty is read at index -1.
empty_url : do_http_response files [] get_a ≡ fault read_before_url
unfolding do_http_response
empty_url = refl

-- Without white space behind the method the copy runs on over the null, into the old stack.
unended_line : do_http_request files stack_junk (sends (codes "GET\n")) ≡ fault read_past_buf
unfolding do_http_request get_line
unended_line = refl

abbrev long_url : List ℕ
long_url = replicate 248 b'x'

abbrev get_long : Client
get_long = sends ((codes "GET " ++ long_url) ++ codes " \r\n\r\n")

-- A directory can be opened, but not read.
abbrev directory : Files
directory = record {
  stat = λ p. some false;
  fopen = λ p. some (record { bytes = []; ending = breaks (codes "stack") });
}

never_ends : do_http_request directory stack_junk get_a ≡ ok out_of_fuel
unfolding do_http_request get_line do_http_response serve_file
never_ends = refl

post_a-IsRequest : IsRequest (request_line post_a) (codes "POST") (codes "/a")
post_a-IsRequest = record {
  sp = 32;
  spaces = [];
  sp' = 32;
  post = codes "HTTP/1.0";
  is_buf = refl;
  method_word = (
    (refl, omega arith),
    ((refl, omega arith), ((refl, omega arith), ((refl, omega arith), tt))),
  );
  method_fits = omega arith;
  sp_space = refl;
  spaces_space = tt;
  url_word = ((refl, omega arith), ((refl, omega arith), tt));
  url_fits = omega arith;
  sp'_space = refl;
}
