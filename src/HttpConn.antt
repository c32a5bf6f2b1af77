-- ===== src/HttpConn.antt =====
-- youshuang/ch15_pool/thread_pool/http_conn.h and http_conn.cpp: one connection of an HTTP server that
-- reads without blocking, and goes on in a request where it left off.
pub mod Line
pub mod Request
pub mod Read
pub mod Response
pub mod Write
use unix_network_programming.Base.{
  ℕ, zero, suc, ◌+◌, ◌-◌, ◌*◌, List, [], ◌∷◌, Bool, true, false, Option, none, some, ◌==◌, ◌||◌,
  ◌&&◌, leb, if◌then◌else◌, length, take, replicate, get_elem?,
}
use unix_network_programming.CString.{is_space, same_text}

-- CHECK_STATE, HTTP_CODE and LINE_STATUS.
pub data CheckState : Type 0 where
  requestline header content : CheckState

pub data HttpCode : Type 0 where
  no_request get_request bad_request no_resource forbidden_request file_request internal_error :
      HttpCode

pub data LineStatus : Type 0 where
  line_ok line_bad line_open : LineStatus

-- An int: `negsuc n` is -(n + 1).
pub data ℤ : Type 0 where
  pos negsuc : ℕ → ℤ

abbrev pub filename_len : ℕ
filename_len = 200

abbrev pub read_buffer_size : ℕ
read_buffer_size = 2048

abbrev pub write_buffer_size : ℕ
write_buffer_size = 1024

-- What stat and mmap say of a file: whether others may read it, whether it is a directory, its bytes.
pub record Stat : Type 0 where
  pub others_read : Bool
  pub is_dir : Bool
  pub bytes : List ℕ

-- The file at a path, if there is one.
abbrev pub Files : Type 0
Files = List ℕ → Option Stat

-- A pointer into m_read_buf is an index, and NULL is `none`. m_write_buf is what stands in it before
-- m_write_idx. `file` is m_file_stat with m_file_address, `iov` whether m_iv_count is 2.
pub record Conn : Type 0 where
  pub read_buf : List ℕ
  pub read_idx : ℕ
  pub checked_idx : ℕ
  pub start_line : ℕ
  pub check_state : CheckState
  pub url : Option ℕ
  pub version : Option ℕ
  pub host : Option ℕ
  pub content_length : ℤ
  pub linger : Bool
  pub file : Option Stat
  pub write_buf : List ℕ
  pub with_file : Bool

-- init(); the file and the vector for writev stay as they are.
unfoldable pub init : Conn → Conn
init c = record c {
  read_buf = replicate read_buffer_size 0;
  read_idx = 0;
  checked_idx = 0;
  start_line = 0;
  check_state = requestline;
  url = none;
  version = none;
  host = none;
  content_length = pos 0;
  linger = false;
  write_buf = [];
}

-- m_read_buf[i]; no read of the class passes its end.
abbrev pub byte : List ℕ → ℕ → ℕ
byte [] i = 0
byte (b ∷ bs) zero = b
byte (b ∷ bs) (suc i) = byte bs i

abbrev pub is_blank : ℕ → Bool
is_blank b = b == 32 || b == 9

-- strspn(text, " \t")
abbrev pub blanks : List ℕ → ℕ
blanks [] = 0
blanks (b ∷ bs) = let rest = suc (blanks bs) in if is_blank b then rest else 0

abbrev pub later : Option ℕ → Option ℕ
later none = none
later (some i) = some (suc i)

-- Where the first byte of the kind stands: strpbrk and strchr on a string.
abbrev pub first : (ℕ → Bool) → List ℕ → Option ℕ
first p [] = none
first p (b ∷ bs) = let rest = later (first p bs) in if p b then some 0 else rest

-- strncasecmp(text, name, strlen(name)) == 0
abbrev pub starts_with : List ℕ → List ℕ → Bool
starts_with text name = same_text (take (length name) text) name

-- atoi, where the number is one of an int.
abbrev pub number : ℕ → List ℕ → ℕ
number n [] = n
number n (b ∷ bs) =
    let rest = number (n * 10 + (b - b'0')) bs in if leb b'0' b && leb b b'9' then rest else n

abbrev pub negative : ℕ → ℤ
negative zero = pos 0
negative (suc n) = negsuc n

abbrev pub signed : List ℕ → ℤ
signed [] = pos 0
signed (b ∷ bs) =
    if b == b'-'
    then negative (number 0 bs)
    else if b == b'+'
    then pos (number 0 bs)
    else pos (number 0 (b ∷ bs))

abbrev pub atoi : List ℕ → ℤ
atoi [] = pos 0
atoi (b ∷ bs) = let rest = atoi bs in if is_space b then rest else signed (b ∷ bs)
