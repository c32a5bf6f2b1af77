-- ===== src/Gai/Entry/Laws.antt =====
-- What `ga_port` makes of a list of structures.
use unix_network_programming.Base.{
  ℕ, ◌-◌, ◌*◌, ◌≤◌, ◌≡◌, refl, List, [], ◌∷◌, map, true, false, none, ◌==◌, length, All, arith,
  flatten,
}
use unix_network_programming.Gai.{AddrInfo, World, done, alloc}
use unix_network_programming.Gai.Entry.{is_inet, assign, ga_clone, visit, ga_port}

-- As the host loop leaves a structure where the caller names no socket type.
abbrev pub IsFresh : AddrInfo → Type 0
IsFresh ai = (ai.clone ≡ true) × (ai.socktype ≡ 0) × (is_inet ai.family ≡ true)

-- As a first pass leaves it.
abbrev pub IsTyped : AddrInfo → Type 0
IsTyped ai = (ai.clone ≡ true) × ((ai.socktype == 0) ≡ false) × (is_inet ai.family ≡ true)

abbrev pub uncloned : AddrInfo → AddrInfo
uncloned ai = record ai { clone = false; canonname = none }

abbrev pub spend : ℕ → World → World
spend n w = record w { allocs = w.allocs - n }

-- A first pass fills the structures in where they stand.
pub ga_port_fresh :
    (ais : List AddrInfo) (port socktype : ℕ) (w : World)
    → All IsFresh ais
    → ga_port ais port socktype w ≡ done (map (assign port socktype) ais, length ais) w
unfolding ga_port visit
ga_port_fresh [] port socktype w h = refl
ga_port_fresh (ai ∷ ais) port socktype w ((c, t, i), h) =
    rw (c, t, ga_port_fresh ais port socktype w h, i) (ground arith)

ga_clone_lem :
    (ai : AddrInfo) (w : World) → 2 ≤ w.allocs → ga_clone ai w ≡ done (uncloned ai) (spend 2 w)
unfolding ga_clone alloc
ga_clone_lem ai w h = ground arith

-- A later pass puts a copy with the other socket type behind each of them.
pub ga_port_typed :
    (ais : List AddrInfo) (port socktype : ℕ) (w : World)
    → All IsTyped ais
    → 2 * length ais ≤ w.allocs
    → ga_port ais port socktype w
      ≡ done
          (flatten (map (λ ai. ai ∷ assign port socktype (uncloned ai) ∷ []) ais), length ais)
          (spend (2 * length ais) w)
unfolding ga_port visit
ga_port_typed [] port socktype w h m = ground arith
ga_port_typed (ai ∷ ais) port socktype w ((c, t, i), h) m =
    rw
      (
        c,
        t,
        ga_clone_lem ai w (omega arith),
        ga_port_typed ais port socktype (spend 2 w) h (omega arith),
        i,
      )
      (ground arith)
