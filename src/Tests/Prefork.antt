-- ===== src/Tests/Prefork.antt =====
-- Two children of Prefork, of which one is busy and has just written.
use unix_network_programming.Base.{ℕ, ◌≡◌, refl, List, [], ◌∷◌, true, false, some, ◌==◌, arith}
use unix_network_programming.Prefork.{
  State, Answers, Outcome, goes, no_child, child_terminated, round,
}
use unix_network_programming.Prefork.Laws.{Sound, round-Sound}

abbrev parent : State
parent = record {
  children = record { busy = true; count = 1 } ∷ record { busy = false; count = 0 } ∷ [];
  navail = 1;
  passed = (0, 7) ∷ [];
}

abbrev answers : Answers
answers = record { nsel = 2; connfd = some 8; ready = λ i. i == 0; closed = λ i. false }

abbrev seen : Outcome → ℕ × List (ℕ × ℕ)
seen (goes s) = (s.navail, s.passed)
seen no_child = (100, [])
seen child_terminated = (200, [])

passes : seen (round answers parent) ≡ (1, (0, 7) ∷ (1, 8) ∷ [])
unfolding round
passes = refl

round-Sound_example : Sound parent (some 8) (round answers parent)
round-Sound_example = round-Sound answers parent refl ((λ h. refl), ((λ h. ground arith), tt))
