-- ===== src/SelectServer/Accept.antt =====
-- A round of the server that takes a new client.
use unix_network_programming.Base.{
  ℕ, zero, suc, ◌≤◌, ◌≡◌, ◌≢◌, refl, ap, ap₂, sym, ◌∙◌, inl, inr, List, [], ◌∷◌, ◌++◌, map, ◌⊎◌,
  Bool, true, false, ◌&&◌, ◌||◌, Option, none, some, ◌==◌, if◌then◌else◌, arith, length, Bool-cases,
  then_branch, else_branch, All,
}
use unix_network_programming.SelectServer.{
  Server, Answers, behind, place, action, cleared, with_client, round,
}
use unix_network_programming.SelectServer.Laws.{
  after, actions_of, ready, Covers, all_served, accepted_lem, larger_left, larger_right,
}

abbrev pub IsTaken : Option ℕ → Type 0
IsTaken none = ⊥
IsTaken (some fd) = Unit

place_first :
    (fd : ℕ) (before rest : List (Option ℕ))
    → All IsTaken before
    → place fd (before ++ none ∷ rest) ≡ some (before ++ some fd ∷ rest, length before)
unfolding place
place_first fd [] rest h = refl
place_first fd (none ∷ before) rest (h, hs) = absurd h
place_first fd (some other ∷ before) rest (h, hs) =
    ap (behind other) (place_first fd before rest hs)

-- Whether a client with this descriptor is in the table, and is ready with an end of file.
abbrev pub holds : ℕ → List (Option ℕ) → Bool
holds fd [] = false
holds fd (none ∷ cs) = holds fd cs
holds fd (some other ∷ cs) = fd == other || holds fd cs

abbrev pub is_empty : List ℕ → Bool
is_empty [] = true
is_empty (b ∷ bs) = false

abbrev pub is_closed : Answers → ℕ → List (Option ℕ) → Bool
is_closed a fd cs = a.rset fd && (is_empty (a.reads fd) && holds fd cs)

cleared_lem :
    (a : Answers) (set : ℕ → Bool) (fd : ℕ) (cs : List (Option ℕ))
    → cleared (actions_of a cs) set fd ≡ (if is_closed a fd cs then false else set fd)
cleared_lem a set fd [] =
    sym (else_branch {b = is_closed a fd []} _ _ (none_in (a.rset fd) (is_empty (a.reads fd))))
  where
    none_in : (b c : Bool) → (b && (c && false)) ≡ false
    none_in true true = refl
    none_in true false = refl
    none_in false c = refl
cleared_lem a set fd (none ∷ cs) = cleared_lem a set fd cs
cleared_lem a set fd (some other ∷ cs) = elim (Bool-cases (a.rset other)) [
  | inl e ↦
      ap (λ xs. cleared xs set fd) (then_branch {b = a.rset other} _ _ e)
      ∙ one (a.reads other) refl (Bool-cases (fd == other)) e (cleared_lem a set fd cs)
  | inr e ↦
      ap (λ xs. cleared xs set fd) (else_branch {b = a.rset other} _ _ e)
      ∙ cleared_lem a set fd cs
      ∙ ap (λ b. if b then false else set fd) (skips (Bool-cases (fd == other)) e)
]
  where
    same : (fd == other) ≡ true → fd ≡ other
    same q = ground arith

    skips :
        ((fd == other) ≡ true) ⊎ ((fd == other) ≡ false)
        → a.rset other ≡ false
        → is_closed a fd cs ≡ is_closed a fd (some other ∷ cs)
    skips (inl q) e =
        let r : a.rset fd ≡ false = ap a.rset (same q) ∙ e in
        ap (λ b. b && (is_empty (a.reads fd) && holds fd cs)) r
        ∙ sym (ap (λ b. b && (is_empty (a.reads fd) && holds fd (some other ∷ cs))) r)
    skips (inr q) e = ap (λ b. a.rset fd && (is_empty (a.reads fd) && (b || holds fd cs))) (sym q)

    one :
        (bs : List ℕ)
        → a.reads other ≡ bs
        → ((fd == other) ≡ true) ⊎ ((fd == other) ≡ false)
        → a.rset other ≡ true
        → cleared (actions_of a cs) set fd ≡ (if is_closed a fd cs then false else set fd)
        → cleared (action other (a.reads other) ∷ actions_of a cs) set fd
          ≡ (if is_closed a fd (some other ∷ cs) then false else set fd)
    one [] r (inl q) e ih =
        ap (λ xs. cleared (action other xs ∷ actions_of a cs) set fd) r
        ∙ then_branch {b = fd == other} _ _ q
        ∙ sym (
            then_branch {b = is_closed a fd (some other ∷ cs)} _ _ (
              ap₂ (λ b xs. b && (is_empty xs && holds fd (some other ∷ cs)))
                (ap a.rset (same q) ∙ e) (ap a.reads (same q) ∙ r)
              ∙ ap (λ b. b || holds fd cs) q))
    one (b ∷ bs) r (inl q) e ih =
        ap (λ xs. cleared (action other xs ∷ actions_of a cs) set fd) r
        ∙ ih
        ∙ ap (λ c. if c then false else set fd)
            (ap₂ (λ c xs. c && (is_empty xs && holds fd cs)) (ap a.rset (same q) ∙ e)
                (ap a.reads (same q) ∙ r)
              ∙ sym (
                  ap₂ (λ c xs. c && (is_empty xs && holds fd (some other ∷ cs)))
                    (ap a.rset (same q) ∙ e) (ap a.reads (same q) ∙ r)))
    one [] r (inr q) e ih =
        ap (λ xs. cleared (action other xs ∷ actions_of a cs) set fd) r
        ∙ else_branch {b = fd == other} _ _ q
        ∙ ih
        ∙ ap
            (λ b.
              if a.rset fd && (is_empty (a.reads fd) && (b || holds fd cs)) then false else set fd)
            (sym q)
    one (b ∷ bs) r (inr q) e ih =
        ap (λ xs. cleared (action other xs ∷ actions_of a cs) set fd) r
        ∙ ih
        ∙ ap
            (λ b.
              if a.rset fd && (is_empty (a.reads fd) && (b || holds fd cs)) then false else set fd)
            (sym q)

actions_of_new :
    (a : Answers) (fd : ℕ) (before rest : List (Option ℕ))
    → a.rset fd ≡ false
    → actions_of a (before ++ some fd ∷ rest) ≡ actions_of a (before ++ none ∷ rest)
actions_of_new a fd [] rest e = else_branch {b = a.rset fd} _ _ e
actions_of_new a fd (none ∷ before) rest e = actions_of_new a fd before rest e
actions_of_new a fd (some other ∷ before) rest e =
    ap (λ xs. if a.rset other then action other (a.reads other) ∷ xs else xs)
      (actions_of_new a fd before rest e)

after_new :
    (a : Answers) (fd : ℕ) (before rest : List (Option ℕ))
    → a.rset fd ≡ false
    → map (after a) (before ++ some fd ∷ rest)
      ≡ map (after a) before ++ some fd ∷ map (after a) rest
after_new a fd [] rest e = ap (λ x. x ∷ map (after a) rest) (else_branch {b = a.rset fd} _ _ e)
after_new a fd (c ∷ before) rest e = ap (λ xs. after a c ∷ xs) (after_new a fd before rest e)

Covers-after :
    (a : Answers) (used : ℕ) (cs : List (Option ℕ))
    → Covers used cs
    → Covers used (map (after a) cs)
Covers-after a zero [] h = tt
Covers-after a zero (none ∷ cs) (h, hs) = (tt, Covers-after a zero cs hs)
Covers-after a zero (some fd ∷ cs) (h, hs) = absurd h
Covers-after a (suc used) [] h = tt
Covers-after a (suc used) (c ∷ cs) h = Covers-after a used cs h

holds_new :
    (fd new : ℕ) (before rest : List (Option ℕ))
    → fd ≢ new
    → holds fd (before ++ some new ∷ rest) ≡ holds fd (before ++ none ∷ rest)
holds_new fd new [] rest d =
    let e : (fd == new) ≡ false = ground arith in ap (λ b. b || holds fd rest) e
holds_new fd new (none ∷ before) rest d = holds_new fd new before rest d
holds_new fd new (some other ∷ before) rest d =
    ap (λ b. fd == other || b) (holds_new fd new before rest d)

-- With a new client, whose descriptor Select did not look at, where a place in the table is free,
-- nready counts the new client and the clients that are ready, and maxi stands above all clients:
-- the new client takes the first place that is free; each client that is ready is served once, in the
-- order of the table, as without the new one; the set holds the new descriptor, and loses those and
-- only those whose client has closed; maxfd is no less than the new descriptor and than before; and
-- maxi stands above all clients again.
pub round_accepts :
    (listenfd : ℕ) (a : Answers) (s : Server) (before rest : List (Option ℕ))
    → a.rset listenfd ≡ true
    → a.rset a.connfd ≡ false
    → s.client ≡ before ++ none ∷ rest
    → All IsTaken before
    → a.nready ≡ suc (ready a s.client)
    → Covers s.used s.client
    → (t : Server) × (round listenfd a s ≡ some (t, actions_of a s.client))
      × (t.client ≡ map (after a) before ++ some a.connfd ∷ map (after a) rest)
      × (t.allset a.connfd ≡ true)
      × ((fd : ℕ)
          → fd ≢ a.connfd
          → t.allset fd ≡ (if is_closed a fd s.client then false else s.allset fd))
      × (a.connfd ≤ t.maxfd)
      × (s.maxfd ≤ t.maxfd)
      × Covers t.used t.client
round_accepts listenfd a s before rest e c p h n f =
    let new = a.connfd in
    let cs = before ++ some new ∷ rest in
    let i = length before in
    let added = with_client new cs i s in
    let t : Server = (all_served a added).0 in
    let (r, k) =
      accepted_lem listenfd a s cs i e c n f (ap (place new) p ∙ place_first new before rest h) in
    let acts : actions_of a cs ≡ actions_of a s.client =
      actions_of_new a new before rest c ∙ ap (actions_of a) (sym p) in
    (
      t,
      r ∙ ap (λ xs. some (t, xs)) acts,
      after_new a new before rest c,
      cleared_lem a added.allset new cs
          ∙ else_branch {b = is_closed a new cs} _ _
              (ap (λ b. b && (is_empty (a.reads new) && holds new cs)) c)
          ∙ then_branch {b = new == new} _ _ (ground arith),
      (λ fd d.
          cleared_lem a added.allset fd cs
          ∙ ap₂ (λ b x. if a.rset fd && (is_empty (a.reads fd) && b) then false else x)
              (holds_new fd new before rest d ∙ ap (holds fd) (sym p))
              (else_branch {b = fd == new} _ _ (ground arith))),
      larger_left new s.maxfd,
      larger_right new s.maxfd,
      Covers-after a added.used cs k,
    )
