-- ===== src/SelectServer.antt =====
-- The loop of unpv1e3/tcpcliserv/tcpservselect01.c: the table of clients, and a round of select.
pub mod Laws
pub mod Accept
use unix_network_programming.Base.{
  ℕ, zero, suc, ◌+◌, ◌-◌, List, [], ◌∷◌, ◌++◌, Bool, true, false, Option, none, some, ◌==◌, leb,
  ltb, if◌then◌else◌, replicate,
}

-- client[], with `none` for -1; maxi + 1; allset; and maxfd.
pub record Server : Type 0 where
  pub client : List (Option ℕ)
  pub used : ℕ
  pub allset : ℕ → Bool
  pub maxfd : ℕ

-- FD_SETSIZE
abbrev pub fd_setsize : ℕ
fd_setsize = 1024

abbrev pub initial : ℕ → Server
initial listenfd = record {
  client = replicate fd_setsize none;
  used = 0;
  allset = λ fd. fd == listenfd;
  maxfd = listenfd;
}

-- What is done with a client.
pub data Action : Type 0 where
  echo : ℕ → List ℕ → Action
  close : ℕ → Action

-- What the system answers in a round: rset and nready from Select, the descriptor of Accept, and
-- what Read gives for each client, nothing at the end of file.
pub record Answers : Type 0 where
  pub rset : ℕ → Bool
  pub nready : ℕ
  pub connfd : ℕ
  pub reads : ℕ → List ℕ

-- The table with the descriptor in the first place that is free, and the index of that place.
abbrev pub behind : ℕ → Option (List (Option ℕ) × ℕ) → Option (List (Option ℕ) × ℕ)
behind other none = none
behind other (some r) = some (some other ∷ r.0, suc r.1)

unfoldable pub place : ℕ → List (Option ℕ) → Option (List (Option ℕ) × ℕ)
place fd [] = none
place fd (none ∷ cs) = some (some fd ∷ cs, 0)
place fd (some other ∷ cs) = behind other (place fd cs)

abbrev pub slot_after : ℕ → List ℕ → Option ℕ
slot_after fd [] = none
slot_after fd (b ∷ bs) = some fd

abbrev pub action : ℕ → List ℕ → Action
action fd [] = close fd
action fd (b ∷ bs) = echo fd (b ∷ bs)

abbrev pub in_front :
    Option ℕ → List Action → List (Option ℕ) × List Action → List (Option ℕ) × List Action
in_front slot done (cs, actions) = (slot ∷ cs, done ++ actions)

-- The loop over the first `used` places, with what is left of nready.
pub scan : Answers → ℕ → ℕ → List (Option ℕ) → List (Option ℕ) × List Action
scan a nready zero cs = (cs, [])
scan a nready (suc used) [] = ([], [])
scan a nready (suc used) (none ∷ cs) = in_front none [] (scan a nready used cs)
scan a nready (suc used) (some fd ∷ cs) =
    let slot = slot_after fd (a.reads fd) in
    let done = action fd (a.reads fd) ∷ [] in
    let skipped = in_front (some fd) [] (scan a nready used cs) in
    let served = in_front slot done (scan a (nready - 1) used cs) in
    if a.rset fd then (if leb (nready - 1) 0 then (slot ∷ cs, done) else served) else skipped

-- allset after the actions: FD_CLR for each client that is closed.
abbrev pub cleared : List Action → (ℕ → Bool) → ℕ → Bool
cleared [] set fd = set fd
cleared (echo other bs ∷ rest) set fd = cleared rest set fd
cleared (close other ∷ rest) set fd = if fd == other then false else cleared rest set fd

abbrev pub scanned : Answers → ℕ → Server → Server × List Action
scanned a nready s =
    let (cs, actions) = scan a nready s.used s.client in
    (record s { client = cs; allset = cleared actions s.allset }, actions)

abbrev pub larger : ℕ → ℕ → ℕ
larger a b = if ltb b a then a else b

-- The table, allset, maxfd and maxi with a new client.
abbrev pub with_client : ℕ → List (Option ℕ) → ℕ → Server → Server
with_client connfd cs i s = record {
  client = cs;
  used = larger (suc i) s.used;
  allset = λ fd. if fd == connfd then true else s.allset fd;
  maxfd = larger connfd s.maxfd;
}

-- After Accept; `none` is the end of the process by err_quit.
pub accepted : Answers → Server → Option (List (Option ℕ) × ℕ) → Option (Server × List Action)
accepted a s none = none
accepted a s (some (cs, i)) =
    let added = with_client a.connfd cs i s in
    if leb (a.nready - 1) 0 then some (added, []) else some (scanned a (a.nready - 1) added)

-- A round of the loop, and what it did with the clients.
unfoldable pub round : ℕ → Answers → Server → Option (Server × List Action)
unfolding accepted scan place
round listenfd a s =
    if a.rset listenfd then accepted a s (place a.connfd s.client) else some (scanned a a.nready s)
