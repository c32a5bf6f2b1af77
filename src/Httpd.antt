-- ===== src/Httpd.antt =====
-- mini_httpd/mini_httpd.c: the state of one connection and the replies.
pub mod Line
pub mod Request
pub mod Response
pub mod Serve
use unix_network_programming.Base.{
  ℕ, List, [], ◌∷◌, ◌++◌, codes, Option, Bool, ◌≡◌, refl, ◌⊎◌, inl, inr,
}
use unix_network_programming.ByteIo.{Arrival}

-- The descriptor `client`: what is still to be read, and each byte string handed to `write`.
-- (The program ignores what `write` returns, but for a message on stderr.)
pub record Client : Type 0 where
  pub input : List Arrival
  pub output : List (List ℕ)

abbrev pub send : List ℕ → Client → Client
send reply c = record c { output = c.output ++ reply ∷ [] }

-- How the reads of an open file end: at the end of the file, or with an error, after which every read
-- fails; the bytes are those that strlen then finds behind what the failed fgets stored.
pub data Ending : Type 0 where
  at_eof : Ending
  breaks : List ℕ → Ending

-- An open file; a directory is one whose first read fails.
pub record File : Type 0 where
  pub bytes : List ℕ
  pub ending : Ending

-- The file system, as `stat` and `fopen` show it; `stat` tells whether a path is a directory, and
-- `none` is a failed call.
pub record Files : Type 0 where
  pub stat : List ℕ → Option Bool
  pub fopen : List ℕ → Option File

-- What C leaves undefined: a read behind `buf`, a read of `url[-1]`, a write behind `path`.
pub data Fault : Type 0 where
  read_past_buf : Fault
  read_before_url : Fault
  write_past_path : Fault

pub data Result {ℓ} (A : Type ℓ) : Type ℓ where
  ok : A → Result A
  fault : Fault → Result A

infixl 5 ◌>>=◌
abbrev pub ◌>>=◌ {ℓ κ} : {A : Type ℓ} {B : Type κ} → Result A → (A → Result B) → Result B
ok a >>= f = f a
fault e >>= f = fault e

-- A run that faults, or whose result satisfies `P`.
abbrev pub Ensures {ℓ κ} : {A : Type ℓ} → (A → Type κ) → Result A → Type κ
Ensures P (ok a) = P a
Ensures P (fault e) = Unit

pub Result-cases {ℓ} :
    {A : Type ℓ} (m : Result A) → ((a : A) × (m ≡ ok a)) ⊎ ((e : Fault) × (m ≡ fault e))
Result-cases (ok a) = inl (a, refl)
Result-cases (fault e) = inr (e, refl)

unfoldable pub bad_request : Client → Client
bad_request = send (
    codes
      "HTTP/1.0 400 BAD REQUEST\r\nContent-Type: text/html\r\n\r\n<HTML><TITLE>BAD REQUEST</TITLE>\r\n"
    ++ codes "<BODY><P>Browser sent a bad request.\r\n</BODY>\r\n</HTML>")

unfoldable pub unimplemented : Client → Client
unimplemented = send (
    codes "HTTP/1.0 501 Method Not Implemented\r\nContent-Type: text/html\r\n\r\n"
    ++ codes "<HTML><TITLE>Method Not Implemented</TITLE>\r\n"
    ++ codes "<BODY><P>HTTP request method not supported.\r\n</BODY>\r\n</HTML>")

unfoldable pub not_found : Client → Client
not_found = send (
    codes
      "HTTP/1.0 404 NOT FOUND\r\nContent-Type: text/html\r\n\r\n<HTML><TITLE>Not Found</TITLE>\r\n"
    ++ codes "<BODY><P>The server could not fulfill your request because the resource "
    ++ codes "specified is unavailable or nonexistent.\r\n</BODY>\r\n</HTML>")
