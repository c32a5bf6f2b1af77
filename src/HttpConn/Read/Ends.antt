-- ===== src/HttpConn/Read/Ends.antt =====
-- `process_read` of http_conn.cpp ends, whatever was read.
use unix_network_programming.Base.{ℕ, ◌≤◌, ◌<◌, ◌≡◌}
use unix_network_programming.HttpConn.{LineStatus, line_ok, line_bad, line_open, Conn}
use unix_network_programming.HttpConn.Read.{Answer, answer, undefined, out_of_fuel}

-- A line that is found takes a byte or more, and ends in what was read.
abbrev pub Advances : ℕ → ℕ → LineStatus → ℕ → Type 0
Advances checked n line_ok i = (checked < i) × (i ≤ n)
Advances checked n line_bad i = Unit
Advances checked n line_open i = Unit

-- A code, or the write outside the buffer; not an end of the fuel.
abbrev pub IsAnswered : Answer → Type 0
IsAnswered (answer code c) = Unit
IsAnswered undefined = Unit
IsAnswered out_of_fuel = ⊥

-- Two rounds for each byte that is not checked, and one for the content.
abbrev pub rounds_for : LineStatus → ℕ
rounds_for line_ok = 2
rounds_for line_bad = 1
rounds_for line_open = 1

-- How a loop with `fuel` rounds goes on from a connection with these indices.
abbrev pub Ends : (LineStatus → Conn → Answer) → LineStatus → ℕ → ℕ → Type 0
Ends loop s checked n =
    (c : Conn) → c.checked_idx ≡ checked → c.read_idx ≡ n → IsAnswered (loop s c)
