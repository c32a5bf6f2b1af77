-- ===== src/Gai/Entry/Families.antt =====
-- The families of the structures that `ga_aistruct` and `ga_port` make.
use unix_network_programming.Base.{
  ℕ, ◌≡◌, inl, inr, List, [], ◌∷◌, ◌==◌, length, All, All-append, length-append, ◌≤◌, ◌<◌, arith,
  Bool-cases, suc,
}
use unix_network_programming.Gai.{
  AddrInfo, Hints, World, Run, done, error, quits, Call, and_then, alloc,
}
use unix_network_programming.Gai.Outcome.{Ensures, and_then-Ensures, if_Ensures, OfFamily}
use unix_network_programming.Gai.Entry.{
  ga_aistruct, ga_clone, ga_port, fill, unlink, visit, in_front, assign, is_inet, found,
}

-- The structure has the family that it is asked for.
pub ga_aistruct_family :
    (hints : Hints) (bytes : List ℕ) (family : ℕ) (w : World)
    → Ensures (λ out. out.family ≡ family) (ga_aistruct hints bytes family w)
unfolding ga_aistruct fill unlink alloc
ga_aistruct_family hints bytes family w = ground arith

-- Structures of the wanted family, and no fewer than the given number.
abbrev pub KeepsFamily : ℕ → ℕ → List AddrInfo × ℕ → Type 0
KeepsFamily family n (ais, m) = All (OfFamily family) ais × (n ≤ length ais)

assign_family :
    (family port socktype : ℕ) (ai : AddrInfo)
    → OfFamily family ai
    → OfFamily family (assign port socktype ai)
assign_family family port socktype ai h = elim (Bool-cases (is_inet ai.family)) [
  | inl e ↦ rw e h
  | inr e ↦ rw e h
]

-- One structure becomes one or two of the same family.
in_front_family :
    (family n k : ℕ) (before : List AddrInfo) (r : Run (List AddrInfo × ℕ))
    → All (OfFamily family) before
    → 0 < length before
    → Ensures (KeepsFamily family n) r
    → Ensures (KeepsFamily family (suc n)) (and_then r (in_front before k))
in_front_family family n k before (done (ais, m) w) h l (g, e) =
    (All-append (OfFamily family) before ais h g, rw (length-append before ais) (omega arith))
in_front_family family n k before (error e w) h l g = tt
in_front_family family n k before quits h l g = tt

ga_clone_family :
    (family : ℕ) (ai : AddrInfo) (w : World)
    → OfFamily family ai
    → Ensures (OfFamily family) (ga_clone ai w)
unfolding ga_clone alloc
ga_clone_family family ai w h = ground arith

visit_family :
    (family port socktype n : ℕ) (ai : AddrInfo) (rest : Call (List AddrInfo × ℕ)) (w : World)
    → OfFamily family ai
    → ((v : World) → Ensures (KeepsFamily family n) (rest v))
    → Ensures (KeepsFamily family (suc n)) (visit ai port socktype rest w)
unfolding visit
visit_family family port socktype n ai rest w h r =
    let kept : All (OfFamily family) (assign port socktype ai ∷ []) =
      (assign_family family port socktype ai h, tt) in
    let assigned =
      in_front_family family n (found ai) (assign port socktype ai ∷ []) (rest w) kept
        (ground arith) (r w) in
    let skipped = in_front_family family n 0 (ai ∷ []) (rest w) (h, tt) (ground arith) (r w) in
    let cloned =
      and_then-Ensures (OfFamily family) (KeepsFamily family (suc n)) (ga_clone ai w) _
        (ga_clone_family family ai w h)
        (λ new v g.
          in_front_family family n (found new) (ai ∷ assign port socktype new ∷ []) (rest v)
            (h, (assign_family family port socktype new g, tt)) (ground arith) (r v)) in
    if_Ensures (KeepsFamily family (suc n)) ai.clone _ _ w
      (if_Ensures (KeepsFamily family (suc n)) (ai.socktype == 0) _ _ w assigned cloned)
      (if_Ensures (KeepsFamily family (suc n)) (ai.socktype == socktype) _ _ w assigned skipped)

-- The list keeps its structures, each with the family it had.
pub ga_port_families :
    (family port socktype : ℕ) (ais : List AddrInfo) (w : World)
    → All (OfFamily family) ais
    → Ensures (KeepsFamily family (length ais)) (ga_port ais port socktype w)
unfolding ga_port
ga_port_families family port socktype [] w h = (tt, ground arith)
ga_port_families family port socktype (ai ∷ ais) w (h, hs) =
    visit_family family port socktype (length ais) ai (ga_port ais port socktype) w h
      (λ v. ga_port_families family port socktype ais v hs)
