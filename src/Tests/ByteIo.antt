-- ===== src/Tests/ByteIo.antt =====
-- `readn`, `writen` and `readline` of unpv1e3/lib at concrete streams.
use unix_network_programming.Base.{◌-◌, ◌≡◌, refl, List, [], ◌∷◌, ◌++◌, some, codes}
use unix_network_programming.ByteIo.{
  Arrival, chunk, failure, Acceptance, took, refused, incoming, ending, eintr,
}
use unix_network_programming.ByteIo.Readn.{returned, error, readn}
use unix_network_programming.ByteIo.Readn.Laws.{promised, readn-eq-promised}
use unix_network_programming.ByteIo.Writen.{WritenResult, writen}
use unix_network_programming.ByteIo.Writen.Laws.{Faithful, writen-Faithful}
use unix_network_programming.ByteIo.Readline.{held, line, readline}
use unix_network_programming.ByteIo.Readline.Fetch.{content}
use unix_network_programming.ByteIo.Readline.Laws.{expected, readline-eq-expected}

-- Two chunks with an interruption between them, a failure at the end.
abbrev two_chunks : List Arrival
two_chunks = chunk (codes "ab\nc") ∷ failure eintr ∷ chunk (codes "def") ∷ failure 104 ∷ []

readn_short :
    readn 6 two_chunks ≡ some (returned (codes "ab\ncde") 6, chunk (codes "f") ∷ failure 104 ∷ [])
unfolding readn
readn_short = refl

readn_failing : readn 8 two_chunks ≡ some (error 104, [])
unfolding readn
readn_failing = refl

readn-eq-promised_example :
    (rest : List Arrival) × (readn 6 two_chunks
      ≡ some (promised 6 [] (incoming two_chunks) (ending two_chunks), rest))
readn-eq-promised_example = readn-eq-promised 6 two_chunks

abbrev in_parts : List Acceptance
in_parts = took 1 ∷ refused eintr ∷ took 9 ∷ []

writen-Faithful_example :
    (r : WritenResult) × (rest : List Acceptance) × (writen (codes "abc") in_parts ≡ some (r, rest))
    × Faithful (codes "abc") r
writen-Faithful_example = writen-Faithful (codes "abc") in_parts

readline_first : (readline 80 (held []) two_chunks).outcome ≡ line (codes "ab\n" ++ 0 ∷ []) 3
unfolding readline
readline_first = refl

readline-eq-expected_example :
    (readline 80 (held []) two_chunks).outcome
    ≡ expected (80 - 1) 1 [] (content (held []) two_chunks) (ending two_chunks)
readline-eq-expected_example = readline-eq-expected 80 (held []) two_chunks
