-- ===== src/SelectServer/Laws.antt =====
-- A round of the server against all clients that are ready.
use unix_network_programming.Base.{
  ℕ, zero, suc, ◌-◌, ◌≤◌, ◌<◌, ◌≡◌, refl, subst, ap, ap₂, sym, ◌∙◌, inl, inr, List, [], ◌∷◌, map,
  true, false, Option, none, some, leb, if◌then◌else◌, arith, Bool-cases, then_branch, else_branch,
  All, drop, leb→le,
}
use unix_network_programming.SelectServer.{
  Server, Action, Answers, behind, place, slot_after, action, in_front, scan, cleared, scanned,
  larger, with_client, accepted, round,
}

-- What becomes of one place.
abbrev pub after : Answers → Option ℕ → Option ℕ
after a none = none
after a (some fd) = if a.rset fd then slot_after fd (a.reads fd) else some fd

-- What is done for all clients that are ready, in the order of the table.
abbrev pub actions_of : Answers → List (Option ℕ) → List Action
actions_of a [] = []
actions_of a (none ∷ cs) = actions_of a cs
actions_of a (some fd ∷ cs) =
    let rest = actions_of a cs in if a.rset fd then action fd (a.reads fd) ∷ rest else rest

-- How many clients are ready.
abbrev pub ready : Answers → List (Option ℕ) → ℕ
ready a [] = 0
ready a (none ∷ cs) = ready a cs
ready a (some fd ∷ cs) = let rest = ready a cs in if a.rset fd then suc rest else rest

abbrev pub IsFree : Option ℕ → Type 0
IsFree none = Unit
IsFree (some fd) = ⊥

-- Where no client is ready nothing is done.
none_ready :
    (a : Answers) (cs : List (Option ℕ))
    → ready a cs ≡ 0
    → (map (after a) cs ≡ cs) × (actions_of a cs ≡ [])
none_ready a [] h = (refl, refl)
none_ready a (none ∷ cs) h = let (e, f) = none_ready a cs h in (ap (λ xs. none ∷ xs) e, f)
none_ready a (some fd ∷ cs) h = elim (Bool-cases (a.rset fd)) [
  | inl e ↦
      let z : suc (ready a cs) ≡ 0 = sym (then_branch {b = a.rset fd} _ _ e) ∙ h in
      absurd (omega arith)
  | inr e ↦
      let (f, g) = none_ready a cs (sym (else_branch {b = a.rset fd} _ _ e) ∙ h) in
      (
        ap₂ (λ x xs. x ∷ xs) (else_branch {b = a.rset fd} _ _ e) f,
        else_branch {b = a.rset fd} _ _ e ∙ g,
      )
]

free_ready : (a : Answers) (cs : List (Option ℕ)) → All IsFree cs → ready a cs ≡ 0
free_ready a [] h = refl
free_ready a (none ∷ cs) (h, hs) = free_ready a cs hs
free_ready a (some fd ∷ cs) (h, hs) = elim h [ ]

abbrev pair : List (Option ℕ) → List Action → List (Option ℕ) × List Action
pair cs actions = (cs, actions)

all_free :
    (a : Answers) (cs : List (Option ℕ))
    → ready a cs ≡ 0
    → pair cs [] ≡ pair (map (after a) cs) (actions_of a cs)
all_free a cs h = let (f, g) = none_ready a cs h in ap₂ pair (sym f) (sym g)

-- The loop serves every client that is ready, once, although it stops at the last of them.
scan_lem :
    (a : Answers) (n used : ℕ) (cs : List (Option ℕ))
    → ready a cs ≡ n
    → All IsFree (drop used cs)
    → scan a n used cs ≡ (map (after a) cs, actions_of a cs)
unfolding scan
scan_lem a n zero cs h f = all_free a cs (free_ready a cs f)
scan_lem a n (suc used) [] h f = refl
scan_lem a n (suc used) (none ∷ cs) h f = ap (in_front none []) (scan_lem a n used cs h f)
scan_lem a n (suc used) (some fd ∷ cs) h f =
    let slot = slot_after fd (a.reads fd) in
    let done = action fd (a.reads fd) ∷ [] in
    elim (Bool-cases (a.rset fd)) [
      | inl e ↦
          let z : suc (ready a cs) ≡ n = sym (then_branch {b = a.rset fd} _ _ e) ∙ h in
          then_branch {b = a.rset fd} _ _ e
          ∙ (elim (Bool-cases (leb (n - 1) 0)) [
            | inl l ↦
                then_branch {b = leb (n - 1) 0} _ _ l
                ∙ ap (in_front slot done) (all_free a cs (omega (arith, leb→le (n - 1) 0 l)))
            | inr l ↦
                else_branch {b = leb (n - 1) 0} _ _ l
                ∙ ap (in_front slot done) (scan_lem a (n - 1) used cs (omega arith) f)
          ])
          ∙ ap₂ pair (ap (λ x. x ∷ map (after a) cs) (sym (then_branch {b = a.rset fd} _ _ e)))
              (sym (then_branch {b = a.rset fd} _ _ e))
      | inr e ↦
          else_branch {b = a.rset fd} _ _ e
          ∙ ap (in_front (some fd) [])
              (scan_lem a n used cs (sym (else_branch {b = a.rset fd} _ _ e) ∙ h) f)
          ∙ ap₂ pair (ap (λ x. x ∷ map (after a) cs) (sym (else_branch {b = a.rset fd} _ _ e)))
              (sym (else_branch {b = a.rset fd} _ _ e))
    ]

-- No place behind the part in use is taken.
abbrev pub Covers : ℕ → List (Option ℕ) → Type 0
Covers used cs = All IsFree (drop used cs)

-- What a new client changes: none more is ready, and places behind its own stay free.
abbrev Placed : Answers → List (Option ℕ) → List (Option ℕ) × ℕ → Type 0
Placed a cs (cs', i) = (ready a cs' ≡ ready a cs) × ((m : ℕ) → i < m → Covers m cs → Covers m cs')

abbrev IfPlaced : Answers → List (Option ℕ) → Option (List (Option ℕ) × ℕ) → Type 0
IfPlaced a cs none = Unit
IfPlaced a cs (some r) = Placed a cs r

behind-IfPlaced :
    (a : Answers) (other : ℕ) (cs : List (Option ℕ)) (o : Option (List (Option ℕ) × ℕ))
    → IfPlaced a cs o
    → IfPlaced a (some other ∷ cs) (behind other o)
behind-IfPlaced a other cs none h = tt
behind-IfPlaced a other cs (some r) (h, k) = (ap (λ n. if a.rset other then suc n else n) h, later)
  where
    later : (m : ℕ) → suc r.1 < m → Covers m (some other ∷ cs) → Covers m (some other ∷ r.0)
    later zero l f = absurd (omega arith)
    later (suc m) l f = k m (omega arith) f

place-IfPlaced :
    (a : Answers) (fd : ℕ) (cs : List (Option ℕ)) → a.rset fd ≡ false → IfPlaced a cs (place fd cs)
unfolding place
place-IfPlaced a fd [] e = tt
place-IfPlaced a fd (none ∷ cs) e = (else_branch {b = a.rset fd} _ _ e, first)
  where
    first : (m : ℕ) → 0 < m → Covers m (none ∷ cs) → Covers m (some fd ∷ cs)
    first zero l f = absurd (omega arith)
    first (suc m) l f = f
place-IfPlaced a fd (some other ∷ cs) e =
    behind-IfPlaced a other cs (place fd cs) (place-IfPlaced a fd cs e)

All_drop : (m n : ℕ) (cs : List (Option ℕ)) → n ≤ m → Covers n cs → Covers m cs
All_drop zero zero cs l f = f
All_drop (suc m) zero [] l f = f
All_drop (suc m) zero (c ∷ cs) l (f, fs) = All_drop m zero cs (omega arith) fs
All_drop zero (suc n) cs l f = absurd (omega arith)
All_drop (suc m) (suc n) [] l f = tt
All_drop (suc m) (suc n) (c ∷ cs) l f = All_drop m n cs (omega arith) f

pub larger_left : (a b : ℕ) → a ≤ larger a b
larger_left a b = ground arith

pub larger_right : (a b : ℕ) → b ≤ larger a b
larger_right a b = ground arith

-- Every client that is ready was served.
abbrev pub all_served : Answers → Server → Server × List Action
all_served a s = (
  record s { client = map (after a) s.client; allset = cleared (actions_of a s.client) s.allset },
  actions_of a s.client,
)

abbrev from_scan : Server → List (Option ℕ) × List Action → Server × List Action
from_scan s (cs, actions) = (record s { client = cs; allset = cleared actions s.allset }, actions)

scanned_lem :
    (a : Answers) (n : ℕ) (s : Server)
    → ready a s.client ≡ n
    → Covers s.used s.client
    → scanned a n s ≡ all_served a s
scanned_lem a n s h f = ap (from_scan s) (scan_lem a n s.used s.client h f)

-- Without a new client, where nready counts the clients that are ready and maxi stands above all
-- clients, a round serves each of those that are ready, once, in the order of the table.
pub round_serves :
    (listenfd : ℕ) (a : Answers) (s : Server)
    → a.rset listenfd ≡ false
    → a.nready ≡ ready a s.client
    → Covers s.used s.client
    → round listenfd a s ≡ some (all_served a s)
unfolding round
round_serves listenfd a s e n f =
    else_branch {b = a.rset listenfd} _ _ e ∙ ap some (scanned_lem a a.nready s (sym n) f)

-- A round with a new client, where a place is found for it.
pub accepted_lem :
    (listenfd : ℕ) (a : Answers) (s : Server) (cs : List (Option ℕ)) (i : ℕ)
    → a.rset listenfd ≡ true
    → a.rset a.connfd ≡ false
    → a.nready ≡ suc (ready a s.client)
    → Covers s.used s.client
    → place a.connfd s.client ≡ some (cs, i)
    → (round listenfd a s ≡ some (all_served a (with_client a.connfd cs i s)))
      × Covers (with_client a.connfd cs i s).used cs
unfolding round accepted
accepted_lem listenfd a s cs i e c n f p =
    let added = with_client a.connfd cs i s in
    let (h, k) = subst (IfPlaced a s.client) p (place-IfPlaced a a.connfd s.client c) in
    let covers : Covers added.used cs =
      k added.used (larger_left (suc i) s.used)
        (All_drop added.used s.used s.client (larger_right (suc i) s.used) f) in
    (
      then_branch {b = a.rset listenfd} _ _ e
          ∙ ap (accepted a s) p
          ∙ (elim (Bool-cases (leb (a.nready - 1) 0)) [
            | inl l ↦
                then_branch {b = leb (a.nready - 1) 0} _ _ l
                ∙ ap some (
                    ap (from_scan added) (all_free a cs (omega (arith, leb→le (a.nready - 1) 0 l))))
            | inr l ↦
                else_branch {b = leb (a.nready - 1) 0} _ _ l
                ∙ ap some (scanned_lem a (a.nready - 1) added (omega arith) covers)
          ]),
      covers,
    )
