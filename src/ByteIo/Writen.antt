-- ===== src/ByteIo/Writen.antt =====
-- `writen` and `Writen` of unpv1e3/lib/writen.c.
pub mod Laws
use unix_network_programming.Base.{
  ℕ, zero, suc, ◌+◌, List, [], ◌++◌, Option, none, some, ◌==◌, if◌then◌else◌, Bool, true, false,
  length, take, drop,
}
use unix_network_programming.ByteIo.{Acceptance, WriteResult, wrote, write_failed, write, eintr}

-- `value` is what is returned, `none` being -1; `sent` and `unsent` are the two parts of the buffer.
pub record WritenResult : Type 0 where
  pub value : Option ℕ
  pub sent : List ℕ
  pub unsent : List ℕ

abbrev pub Run : Type 0
Run = Option (WritenResult × List Acceptance)

abbrev gives_up : List ℕ → List ℕ → List Acceptance → Run
gives_up sent unsent s = some (record { value = none; sent = sent; unsent = unsent }, s)

-- One round of the loop, on what `write` answered: a count that is not positive is an error,
-- but for a call that was interrupted.
pub react :
    (List ℕ → List ℕ → List Acceptance → Run)
    → List ℕ
    → List ℕ
    → WriteResult
    → List Acceptance
    → Run
react loop sent unsent (write_failed e) s =
    if e == eintr then loop sent unsent s else gives_up sent unsent s
react loop sent unsent (wrote zero) s = gives_up sent unsent s
react loop sent unsent (wrote (suc k)) s =
    loop (sent ++ take (suc k) unsent) (drop (suc k) unsent) s

-- `while (nleft > 0)`, with `nleft` the length of `unsent`; `none` means that the fuel ran out.
pub writen_loop : ℕ → ℕ → List ℕ → List ℕ → List Acceptance → Run
writen_loop zero n sent unsent s = none
writen_loop (suc fuel) n sent unsent s =
    let (answer, rest) = write (length unsent) s in
    let round = react (writen_loop fuel n) sent unsent answer rest in
    if length unsent == 0
    then some (record { value = some n; sent = sent; unsent = unsent }, s)
    else round

-- Each round but the last takes an answer, and where none is left one call sends all.
unfoldable pub writen : List ℕ → List Acceptance → Run
unfolding writen_loop react write
writen buf s = writen_loop (length s + 2) (length buf) [] buf s

-- `Writen` returns only where all was written, and exits through `err_sys` otherwise.
unfoldable pub checked_writen : List ℕ → WritenResult → Bool
checked_writen buf r = returns r.value
  where
    returns : Option ℕ → Bool
    returns none = false
    returns (some n) = n == length buf
