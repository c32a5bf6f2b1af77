-- ===== src/ByteIo/Readn.antt =====
-- `readn` of unpv1e3/lib/readn.c.
pub mod Laws
use unix_network_programming.Base.{
  ℕ, zero, suc, ◌+◌, ◌-◌, List, [], ◌∷◌, ◌++◌, Option, none, some, ◌==◌, if◌then◌else◌, length,
}
use unix_network_programming.ByteIo.{Arrival, ReadResult, got, failed, read, eintr, size}

-- `returned buf value`: the bytes stored and the value returned; `error e`: -1, with `errno`.
pub data ReadnResult : Type 0 where
  returned : List ℕ → ℕ → ReadnResult
  error : ℕ → ReadnResult

abbrev pub Run : Type 0
Run = Option (ReadnResult × List Arrival)

-- One round of the loop, on what `read` answered.
pub react : (ℕ → List ℕ → List Arrival → Run) → ℕ → ℕ → List ℕ → ReadResult → List Arrival → Run
react loop n nleft stored (failed e) s =
    if e == eintr then loop nleft stored s else some (error e, s)
react loop n nleft stored (got []) s = some (returned stored (n - nleft), s)
react loop n nleft stored (got (b ∷ bs)) s = loop (nleft - length (b ∷ bs)) (stored ++ (b ∷ bs)) s

-- `while (nleft > 0)`, on fuel; `none` means that the fuel ran out.
pub readn_loop : ℕ → ℕ → ℕ → List ℕ → List Arrival → Run
readn_loop zero n nleft stored s = none
readn_loop (suc fuel) n zero stored s = some (returned stored (n - 0), s)
readn_loop (suc fuel) n (suc left) stored s =
    let (answer, rest) = read (suc left) s in
    react (readn_loop fuel n) n (suc left) stored answer rest

-- Each call takes a byte or an arrival from the stream, so its size bounds the rounds.
unfoldable pub readn : ℕ → List Arrival → Run
unfolding readn_loop react read
readn n s = readn_loop (suc (size s)) n n [] s

-- `Readn`: the process exits through `err_sys` where `readn` returns a negative value.
pub data Checked : Type 0 where
  value : List ℕ → ℕ → Checked
  exits : Checked

unfoldable pub checked_readn : ReadnResult → Checked
checked_readn (returned buf n) = value buf n
checked_readn (error e) = exits
