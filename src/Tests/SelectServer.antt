-- ===== src/Tests/SelectServer.antt =====
-- A round of tcpservselect01.c with two clients, and one with a third.
use unix_network_programming.Base.{
  ℕ, ◌≤◌, ◌≡◌, ◌≢◌, refl, true, false, List, [], ◌∷◌, Option, none, some, ◌==◌, ◌||◌, if◌then◌else◌,
  codes,
}
use unix_network_programming.SelectServer.{Server, Action, echo, close, Answers, place, round}
use unix_network_programming.SelectServer.Laws.{Covers, all_served, round_serves}
use unix_network_programming.SelectServer.Accept.{is_closed, round_accepts}

-- The listening descriptor is 3; the clients are 4 and 6, and a place between them is free.
abbrev server : Server
server = record {
  client = some 4 ∷ none ∷ some 6 ∷ none ∷ [];
  used = 3;
  allset = λ fd. fd == 3 || fd == 4 || fd == 6;
  maxfd = 6;
}

-- 4 sends a text, 6 has closed.
abbrev both : Answers
both = record {
  rset = λ fd. fd == 4 || fd == 6;
  nready = 2;
  connfd = 0;
  reads = λ fd. if fd == 4 then codes "hi" else [];
}

abbrev with_new : Answers
with_new = record both { rset = λ fd. fd == 3 || fd == 6; connfd = 7 }

abbrev actions_of_round : Option (Server × List Action) → List Action
actions_of_round none = []
actions_of_round (some r) = r.1

both_served : actions_of_round (round 3 both server) ≡ echo 4 (codes "hi") ∷ close 6 ∷ []
unfolding round
both_served = refl

round_serves_example : round 3 both server ≡ some (all_served both server)
round_serves_example = round_serves 3 both server refl refl (tt, tt)

placed : place 7 server.client ≡ some (some 4 ∷ some 7 ∷ some 6 ∷ none ∷ [], 1)
unfolding place
placed = refl

-- 6 closes, and 7 is new.
round_accepts_example :
    (t : Server) × (round 3 with_new server ≡ some (t, close 6 ∷ []))
    × (t.client ≡ some 4 ∷ some 7 ∷ none ∷ none ∷ [])
    × (t.allset 7 ≡ true)
    × ((fd : ℕ)
        → fd ≢ 7
        → t.allset fd ≡ (if is_closed with_new fd server.client then false else server.allset fd))
    × (7 ≤ t.maxfd)
    × (6 ≤ t.maxfd)
    × Covers t.used t.client
round_accepts_example =
    round_accepts 3 with_new server (some 4 ∷ []) (some 6 ∷ none ∷ []) refl refl refl (tt, tt) refl
      (tt, tt)
