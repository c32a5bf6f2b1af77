-- ===== src/Tests/Web.antt =====
-- Two files of Web over one connection at a time.
use unix_network_programming.Base.{ℕ, ◌+◌, ◌≡◌, refl, List, [], ◌∷◌, true}
use unix_network_programming.Web.{
  initial, Connecting, in_progress, cannot_connect, Outcome, goes, nothing_found, exits, Answers,
  round, rounds,
}
use unix_network_programming.Web.Counters.{Sound}
use unix_network_programming.Web.Laws.{rounds-Sound-initial}

abbrev connecting : ℕ → Connecting
connecting left = in_progress (10 + left)

abbrev all_ready : Answers
all_ready = record {
  selects = true;
  rs = λ fd. true;
  ws = λ fd. true;
  can_write = λ fd. true;
  can_read = λ fd. true;
  eof = λ fd. true;
  closes = λ fd. true;
}

abbrev answers : List ((ℕ → Connecting) × Answers)
answers =
    (connecting, all_ready)
    ∷ (connecting, all_ready)
    ∷ (connecting, all_ready)
    ∷ (connecting, all_ready)
    ∷ []

abbrev left_of : Outcome → ℕ × List ℕ
left_of (goes s) = (s.conns.nlefttoread, s.conns.closed)
left_of nothing_found = (100, [])
left_of exits = (200, [])

-- The second file is started behind the first.
reads_both : left_of (rounds 1 answers (initial 2)) ≡ (0, 10 ∷ 11 ∷ [])
unfolding rounds round
reads_both = refl

rounds-Sound-initial_example : Sound 1 (rounds 1 answers (initial 2))
rounds-Sound-initial_example = rounds-Sound-initial 1 2 answers

-- A host that cannot be reached ends the process.
unreachable : rounds 1 ((λ n. cannot_connect, all_ready) ∷ []) (initial 2) ≡ exits
unfolding rounds round
unreachable = refl
