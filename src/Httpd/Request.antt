-- ===== src/Httpd/Request.antt =====
-- `do_http_request` of mini_httpd/mini_httpd.c, and the body of `main`'s loop.
pub mod Laws
pub mod Replies
pub mod Ends
use unix_network_programming.Base.{
  ℕ, zero, suc, ◌+◌, List, [], ◌∷◌, ◌++◌, codes, Option, none, some, Bool, true, false, not, ◌==◌,
  ltb, if◌then◌else◌, length, get_elem?,
}
use unix_network_programming.ByteIo.{Arrival, size}
use unix_network_programming.CString.{is_space, c_string, same_text}
use unix_network_programming.Httpd.{
  Client, Files, Fault, read_past_buf, Result, ok, fault, ◌>>=◌, bad_request, unimplemented,
}
use unix_network_programming.Httpd.Line.{GetLine, get_line}
use unix_network_programming.Httpd.Response.{do_http_response}

-- sizeof(buf), sizeof(method), sizeof(url)
abbrev pub buf_size : ℕ
buf_size = 256

abbrev pub method_size : ℕ
method_size = 16

abbrev pub url_size : ℕ
url_size = 256

-- `buf[j]`; a read behind the buffer is a fault.
abbrev pub byte_at : List ℕ → ℕ → Result ℕ
byte_at buf j = elim (get_elem? buf j) [ none ↦ fault read_past_buf | some b ↦ ok b ]

-- `while (!isspace(buf[j]) && i < sizeof(word) - 1) word[i++] = buf[j++];` with `room` bytes left:
-- the bytes copied, and `j`. The byte is read before the room is tested.
pub copy_word : ℕ → List ℕ → ℕ → List ℕ → Result (List ℕ × ℕ)
copy_word zero buf j word = do c ← byte_at buf j; ok (word, j)
copy_word (suc room) buf j word = do
  c ← byte_at buf j
  let more = copy_word room buf (j + 1) (word ++ c ∷ [])
  if is_space c then ok (word, j) else more

-- `while (isspace(buf[++j]));`. As many rounds as the buffer has bytes read behind it.
pub skip_spaces : ℕ → List ℕ → ℕ → Result ℕ
skip_spaces zero buf j = fault read_past_buf
skip_spaces (suc rounds) buf j = do
  c ← byte_at buf (j + 1)
  let more = skip_spaces rounds buf (j + 1)
  if is_space c then more else ok (j + 1)

-- The client, and the value returned: whether it is 0.
pub data Served : Type 0 where
  served : Client → Served
  refused : Client → Served
  out_of_fuel : Served

-- `do { len = get_line(…); } while (len > 0);`
pub drain : ℕ → List ℕ → Client → Served
drain zero buf c = out_of_fuel
drain (suc fuel) buf c = elim (get_line buf_size buf c.input) [
  | none ↦ out_of_fuel
  | some r ↦
      let rest = record c { input = r.input } in
      let again = drain fuel r.buf rest in if ltb 0 r.count then again else served rest
]

abbrev pub after_response : List ℕ → Option Client → Served
after_response buf none = out_of_fuel
after_response buf (some c) = drain (size c.input + 2) buf c

-- What follows the first line, in `buf`.
pub handle_line : Files → List ℕ → Client → Result Served
handle_line fs buf c = do
  (method, j) ← copy_word 15 buf 0 []
  let go_on = do
    start ← skip_spaces (length buf) buf j
    (url, k) ← copy_word 255 buf start []
    answered ← do_http_response fs (c_string url) c
    ok (after_response buf answered)
  if same_text (c_string method) (codes "GET") then go_on else ok (refused (unimplemented c))

-- The test of what `get_line` returned.
pub after_line : Files → GetLine → Client → Result Served
after_line fs r c =
    if ltb 0 r.count
    then handle_line fs r.buf (record c { input = r.input })
    else ok (refused (bad_request (record c { input = r.input })))

pub on_line : Files → Client → Option GetLine → Result Served
on_line fs c none = ok out_of_fuel
on_line fs c (some r) = after_line fs r c

-- `junk` is what the stack holds where `buf` is declared.
unfoldable pub do_http_request : Files → List ℕ → Client → Result Served
unfolding on_line after_line handle_line copy_word skip_spaces drain
do_http_request fs junk c = on_line fs c (get_line buf_size junk c.input)
