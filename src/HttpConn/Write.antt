-- ===== src/HttpConn/Write.antt =====
-- `write`, `process` and `close_conn` of http_conn.cpp.
pub mod Laws
use unix_network_programming.Base.{
  ℕ, ◌+◌, ◌-◌, List, [], ◌∷◌, ◌++◌, Bool, true, false, Option, none, some, ◌==◌, leb, if◌then◌else◌,
  length, take, min,
}
use unix_network_programming.ByteIo.{Acceptance, took, refused}
use unix_network_programming.HttpConn.{
  HttpCode, no_request, get_request, bad_request, no_resource, forbidden_request, file_request,
  internal_error, Stat, Files, Conn, init,
}
use unix_network_programming.HttpConn.Read.{Answer, answer, undefined, out_of_fuel, process_read}
use unix_network_programming.HttpConn.Response.{process_write}

-- What epoll watches the socket for behind modfd.
pub data Watched : Type 0 where
  epollin epollout : Watched

-- The two parts for writev.
abbrev pub bytes_of : Option Stat → List ℕ
bytes_of none = []
bytes_of (some s) = s.bytes

abbrev pub parts : Conn → List ℕ
parts c = if c.with_file then c.write_buf ++ bytes_of c.file else c.write_buf

-- What write() returns, what it sent, and the event that it asks for, if any.
pub record Written : Type 0 where
  pub again : Bool
  pub sent : List ℕ
  pub conn : Conn
  pub watched : Option Watched

abbrev pub eagain : ℕ
eagain = 11

-- unmap()
abbrev pub unmap : Conn → Conn
unmap c = record c { file = none }

-- Behind the last byte: the connection is used again, or closed by the caller.
abbrev pub finished : List ℕ → Conn → Written
finished sent c =
    if c.linger
    then record { again = true; sent = sent; conn = init (unmap c); watched = some epollin }
    else record { again = false; sent = sent; conn = unmap c; watched = some epollin }

abbrev pub failed : ℕ → List ℕ → Conn → Written
failed errno sent c =
    if errno == eagain
    then record { again = true; sent = sent; conn = c; watched = some epollout }
    else record { again = false; sent = sent; conn = unmap c; watched = none }

-- The loop: writev begins with the first byte every time. Where the answers end it takes everything.
pub write_loop : List Acceptance → ℕ → List ℕ → Conn → Written
write_loop [] to_send sent c = finished (sent ++ parts c) c
write_loop (refused errno ∷ s) to_send sent c = failed errno sent c
write_loop (took k ∷ s) to_send sent c =
    let sent' = sent ++ take k (parts c) in
    let temp = min k (length (parts c)) in
    let rest = write_loop s (to_send - temp) sent' c in
    if leb (to_send - temp) 0 then finished sent' c else rest

unfoldable pub write : List Acceptance → Conn → Written
unfolding write_loop
write s c =
    if length c.write_buf == 0
    then record { again = true; sent = []; conn = init c; watched = some epollin }
    else write_loop s (length c.write_buf) [] c

-- What process() leaves: the connection, whether close_conn has closed it, and the event; or what C++
-- leaves undefined.
pub data Processed : Type 0 where
  processed : Conn → Bool → Watched → Processed
  broken : Processed
  runs_on : Processed

abbrev pub on_written : Bool × Conn → Processed
on_written (kept, c) = processed c (if kept then false else true) epollout

abbrev pub on_read : Answer → Processed
on_read undefined = broken
on_read out_of_fuel = runs_on
on_read (answer no_request c) = processed c false epollin
on_read (answer get_request c) = on_written (process_write get_request c)
on_read (answer bad_request c) = on_written (process_write bad_request c)
on_read (answer no_resource c) = on_written (process_write no_resource c)
on_read (answer forbidden_request c) = on_written (process_write forbidden_request c)
on_read (answer file_request c) = on_written (process_write file_request c)
on_read (answer internal_error c) = on_written (process_write internal_error c)

unfoldable pub process : Files → Conn → Processed
process files c = on_read (process_read files c)
