-- ===== src/Prefork/Laws.antt =====
-- navail is the number of the children that are available, and one is found for each connection.
use unix_network_programming.Base.{
  ℕ, ◌+◌, ◌-◌, ◌<◌, ◌≡◌, refl, ap, List, [], ◌∷◌, ◌++◌, Bool, true, false, Option, none, some, ◌==◌,
  leb, if◌then◌else◌, arith, get_elem?, Bool-cases, inl, inr, ◌⊎◌, then_branch,
}
use mathlib.Core.Option.{some-ne-none}
use unix_network_programming.Prefork.{
  Child, State, Answers, Outcome, goes, no_child, child_terminated, one_up, assign, and_freed,
  freed, scan, scanned, accepted, on_listen, round,
}

abbrev pub free_weight : Bool → ℕ
free_weight true = 0
free_weight false = 1

abbrev pub available : List Child → ℕ
available [] = 0
available (c ∷ cs) = free_weight c.busy + available cs

-- A pipe is ready only where its child is busy: a child writes behind a connection that it was given.
abbrev pub ReadyBusy : Answers → ℕ → List Child → Type 0
ReadyBusy a i [] = Unit
ReadyBusy a i (c ∷ cs) = (a.ready i ≡ true → c.busy ≡ true) × ReadyBusy a (i + 1) cs

abbrev pub Assigned : List Child → Option (ℕ × List Child) → Type 0
Assigned cs none = available cs ≡ 0
Assigned cs (some (i, cs')) =
    (available cs ≡ available cs' + 1)
    × ((c : Child) × (get_elem? cs i ≡ some c) × (c.busy ≡ false))
    × ((a : Answers) (j : ℕ) → ReadyBusy a j cs → ReadyBusy a j cs')

one_up-Assigned :
    (c : Child) (cs : List Child) (o : Option (ℕ × List Child))
    → c.busy ≡ true
    → Assigned cs o
    → Assigned (c ∷ cs) (one_up o c)
one_up-Assigned c cs none b h = let w = ap free_weight b in omega (arith, w, h)
one_up-Assigned c cs (some (i, cs')) b (n, f, r) =
    (omega (arith, n), f, λ a j (p, ps). (p, r a (j + 1) ps))

if_Assigned :
    (cs : List Child) (b : Bool) (x y : Option (ℕ × List Child))
    → (b ≡ true → Assigned cs x)
    → (b ≡ false → Assigned cs y)
    → Assigned cs (if b then x else y)
if_Assigned cs true x y h k = h refl
if_Assigned cs false x y h k = k refl

assign-Assigned : (cs : List Child) → Assigned cs (assign cs)
unfolding assign
assign-Assigned [] = refl
assign-Assigned (c ∷ cs) =
    if_Assigned (c ∷ cs) c.busy (one_up (assign cs) c)
      (some (0, record { busy = true; count = c.count + 1 } ∷ cs))
      (λ b. one_up-Assigned c cs (assign cs) b (assign-Assigned cs))
      (λ b. (
        let w = ap free_weight b in omega (arith, w),
        (c, refl, b),
        λ a j (p, ps). ((λ r. refl), ps),
      ))

abbrev pub Freed : List Child → Option (List Child × ℕ) → Type 0
Freed cs none = Unit
Freed cs (some (cs', n)) = available cs' ≡ available cs + n

if_Freed :
    (cs : List Child) (b : Bool) (x y : Option (List Child × ℕ))
    → (b ≡ true → Freed cs x)
    → (b ≡ false → Freed cs y)
    → Freed cs (if b then x else y)
if_Freed cs true x y h k = h refl
if_Freed cs false x y h k = k refl

and_freed-Freed :
    (c d : Child) (n : ℕ) (cs : List Child) (o : Option (List Child × ℕ))
    → free_weight d.busy ≡ free_weight c.busy + n
    → Freed cs o
    → Freed (c ∷ cs) (and_freed d n o)
and_freed-Freed c d n cs none e h = tt
and_freed-Freed c d n cs (some (cs', m)) e h = omega (arith, e, h)

scan-Freed :
    (a : Answers) (i nsel : ℕ) (cs : List Child) → ReadyBusy a i cs → Freed cs (scan a i nsel cs)
unfolding scan
scan-Freed a i nsel [] h = omega arith
scan-Freed a i nsel (c ∷ cs) (h, hs) =
    if_Freed (c ∷ cs) (a.ready i) _ (and_freed c 0 (scan a (i + 1) nsel cs))
      (λ r.
        let w = ap free_weight (h r) in
        if_Freed (c ∷ cs) (a.closed i) none _ (λ z. tt)
          (λ z.
            if_Freed (c ∷ cs) (nsel - 1 == 0) (some (freed c ∷ cs, 1))
              (and_freed (freed c) 1 (scan a (i + 1) (nsel - 1) cs)) (λ e. omega (arith, w))
              (λ e.
                and_freed-Freed c (freed c) 1 cs (scan a (i + 1) (nsel - 1) cs) (omega (arith, w))
                  (scan-Freed a (i + 1) (nsel - 1) cs hs))))
      (λ r.
        and_freed-Freed c c 0 cs (scan a (i + 1) nsel cs) (omega arith)
          (scan-Freed a (i + 1) nsel cs hs))

-- What a round leaves: navail is right again, and what is passed went to a child that was available.
abbrev pub IsRight : State → Type 0
IsRight s = s.navail ≡ available s.children

abbrev pub PassedFor : State → Option ℕ → List (ℕ × ℕ) → Type 0
PassedFor s none passed = passed ≡ s.passed
PassedFor s (some connfd) passed =
    (i : ℕ) × (c : Child) × (get_elem? s.children i ≡ some c)
    × (c.busy ≡ false)
    × (passed ≡ s.passed ++ (i, connfd) ∷ [])

abbrev pub Sound : State → Option ℕ → Outcome → Type 0
Sound s o (goes t) = IsRight t × PassedFor s o t.passed
Sound s o no_child = ⊥
Sound s o child_terminated = Unit

scanned-Sound :
    (s t : State) (o : Option ℕ) (r : Option (List Child × ℕ))
    → IsRight t
    → PassedFor s o t.passed
    → Freed t.children r
    → Sound s o (scanned r t)
scanned-Sound s t o none h p f = tt
scanned-Sound s t o (some (cs, n)) h p f = (omega (arith, h, f), p)

if_Sound :
    (s : State) (o : Option ℕ) (b : Bool) (x y : Outcome)
    → Sound s o x
    → Sound s o y
    → Sound s o (if b then x else y)
if_Sound s o true x y h k = h
if_Sound s o false x y h k = k

accepted-Sound :
    (a : Answers) (connfd : ℕ) (s : State) (r : Option (ℕ × List Child))
    → IsRight s
    → 0 < s.navail
    → ReadyBusy a 0 s.children
    → Assigned s.children r
    → Sound s (some connfd) (accepted a connfd r s)
accepted-Sound a connfd s none h l b r = absurd (omega (arith, h, r))
accepted-Sound a connfd s (some (i, cs)) h l b (n, (c, g, f), k) =
    let t : State = record s {
      children = cs;
      navail = s.navail - 1;
      passed = s.passed ++ (i, connfd) ∷ [];
    } in
    let right : IsRight t = omega (arith, h, n) in
    let for_it : PassedFor s (some connfd) t.passed = (i, c, g, f, refl) in
    if_Sound s (some connfd) (a.nsel - 1 == 0) (goes t) (scanned (scan a 0 (a.nsel - 1) cs) t)
      (right, for_it)
      (scanned-Sound s t (some connfd) (scan a 0 (a.nsel - 1) cs) right for_it
        (scan-Freed a 0 (a.nsel - 1) cs (k a 0 b)))

-- The connection that a round takes: none where no child is available.
abbrev pub taken : Answers → State → Option ℕ
taken a s = if leb s.navail 0 then none else a.connfd

on_listen-Sound :
    (a : Answers) (o : Option ℕ) (s : State)
    → IsRight s
    → (o ≡ none) ⊎ (0 < s.navail)
    → ReadyBusy a 0 s.children
    → Sound s o (on_listen a o s)
on_listen-Sound a none s h l b =
    scanned-Sound s s none (scan a 0 a.nsel s.children) h refl (scan-Freed a 0 a.nsel s.children b)
on_listen-Sound a (some connfd) s h (inl e) b = absurd (some-ne-none connfd e)
on_listen-Sound a (some connfd) s h (inr l) b =
    accepted-Sound a connfd s (assign s.children) h l b (assign-Assigned s.children)

-- Where navail is the number of the children that are available, and only busy children have written:
-- a round passes the connection it accepts to a child that was available, never finds none, and leaves
-- navail right, unless a child has terminated.
pub round-Sound :
    (a : Answers) (s : State)
    → IsRight s
    → ReadyBusy a 0 s.children
    → Sound s (taken a s) (round a s)
unfolding round
round-Sound a s h b =
    on_listen-Sound a (taken a s) s h
      (elim (Bool-cases (leb s.navail 0)) [
        | inl e ↦ inl (then_branch {b = leb s.navail 0} _ _ e)
        | inr e ↦ inr (ground arith)
      ])
      b
