-- ===== src/Prefork.antt =====
-- unpv1e3/server/serv05.c: the parent of the preforked servers, which accepts the connections and passes
-- each descriptor to a child that is free.
pub mod Laws
use unix_network_programming.Base.{
  ℕ, zero, suc, ◌+◌, ◌-◌, List, [], ◌∷◌, ◌++◌, Bool, true, false, Option, none, some, ◌==◌, leb,
  if◌then◌else◌,
}

-- child_status, which is 0 where the child is ready, and child_count.
pub record Child : Type 0 where
  pub busy : Bool
  pub count : ℕ

-- cptr[], navail, and the descriptors that were passed, each with the index of the child.
pub record State : Type 0 where
  pub children : List Child
  pub navail : ℕ
  pub passed : List (ℕ × ℕ)

-- nsel of Select; what Accept returns, where listenfd is ready; which pipes are ready, and of which
-- Read returns 0.
pub record Answers : Type 0 where
  pub nsel : ℕ
  pub connfd : Option ℕ
  pub ready : ℕ → Bool
  pub closed : ℕ → Bool

-- The end of a round, or err_quit: no child is available, or one has terminated.
pub data Outcome : Type 0 where
  goes : State → Outcome
  no_child child_terminated : Outcome

abbrev pub one_up : Option (ℕ × List Child) → Child → Option (ℕ × List Child)
one_up none c = none
one_up (some (i, cs)) c = some (suc i, c ∷ cs)

-- The first child that is available becomes busy: its index, and the children.
pub assign : List Child → Option (ℕ × List Child)
assign [] = none
assign (c ∷ cs) =
    let rest = one_up (assign cs) c in
    if c.busy then rest else some (0, record { busy = true; count = c.count + 1 } ∷ cs)

abbrev pub and_freed : Child → ℕ → Option (List Child × ℕ) → Option (List Child × ℕ)
and_freed c n none = none
and_freed c n (some (cs, freed)) = some (c ∷ cs, n + freed)

abbrev pub freed : Child → Child
freed c = record c { busy = false }

-- The loop over the children from the index `i` on: the children, and how many are available again.
-- `none` is a child that has terminated.
pub scan : Answers → ℕ → ℕ → List Child → Option (List Child × ℕ)
scan a i nsel [] = some ([], 0)
scan a i nsel (c ∷ cs) =
    let behind = scan a (i + 1) (nsel - 1) cs in
    let rest = scan a (i + 1) nsel cs in
    if a.ready i
    then (if a.closed i
        then none
        else if nsel - 1 == 0
        then some (freed c ∷ cs, 1)
        else and_freed (freed c) 1 behind)
    else and_freed c 0 rest

abbrev pub scanned : Option (List Child × ℕ) → State → Outcome
scanned none s = child_terminated
scanned (some (cs, n)) s = goes (record s { children = cs; navail = s.navail + n })

abbrev pub accepted : Answers → ℕ → Option (ℕ × List Child) → State → Outcome
accepted a connfd none s = no_child
accepted a connfd (some (i, cs)) s =
    let given = record s {
      children = cs;
      navail = s.navail - 1;
      passed = s.passed ++ (i, connfd) ∷ [];
    } in
    if a.nsel - 1 == 0 then goes given else scanned (scan a 0 (a.nsel - 1) cs) given

abbrev pub on_listen : Answers → Option ℕ → State → Outcome
on_listen a none s = scanned (scan a 0 a.nsel s.children) s
on_listen a (some connfd) s = accepted a connfd (assign s.children) s

-- A round of the loop; listenfd is left out where no child is available.
unfoldable pub round : Answers → State → Outcome
unfolding assign scan
round a s = on_listen a (if leb s.navail 0 then none else a.connfd) s
