-- ===== src/Gai/Service/Families.antt =====
-- The families of the structures that `ga_serv` returns.
use unix_network_programming.Base.{
  ℕ, List, ◌==◌, ◌||◌, ◌<◌, if◌then◌else◌, length, All, arith, Option-cases, inl, inr,
}
use unix_network_programming.Gai.{
  sock_stream, sock_dgram, AddrInfo, Hints, World, Protocol, tcp, udp, Resolver, htons, atoi_from,
  starts_with_digit, Run, done,
}
use unix_network_programming.Gai.Outcome.{Ensures, and_then-Ensures, if_Ensures, OfFamily}
use unix_network_programming.Gai.Entry.{ga_port}
use unix_network_programming.Gai.Entry.Families.{KeepsFamily, ga_port_families}
use unix_network_programming.Gai.Service.{by_number, try_name, by_name, any_found, ga_serv}

-- Structures of the wanted family, and at least one.
abbrev pub AllOf : ℕ → List AddrInfo → Type 0
AllOf family ais = All (OfFamily family) ais × (0 < length ais)

abbrev Counted : ℕ → List AddrInfo × ℕ → Type 0
Counted family (ais, n) = AllOf family ais

kept-Counted :
    (family n : ℕ) (r : Run (List AddrInfo × ℕ))
    → 0 < n
    → Ensures (KeepsFamily family n) r
    → Ensures (Counted family) r
kept-Counted family n (done (ais, m) w) l (h, k) = (h, omega arith)
kept-Counted family n (Run.error e w) l h = tt
kept-Counted family n Run.quits l h = tt

ga_port-Counted :
    (family port socktype : ℕ) (ais : List AddrInfo) (w : World)
    → AllOf family ais
    → Ensures (Counted family) (ga_port ais port socktype w)
ga_port-Counted family port socktype ais w (h, l) =
    kept-Counted family (length ais) (ga_port ais port socktype w) l
      (ga_port_families family port socktype ais w h)

by_number_families :
    (family : ℕ) (ais : List AddrInfo) (hints : Hints) (port : ℕ) (w : World)
    → AllOf family ais
    → Ensures (Counted family) (by_number ais hints port w)
unfolding by_number
by_number_families family ais hints port w h =
    if_Ensures (Counted family) (hints.socktype == 0) _ _ w
      (and_then-Ensures (Counted family) (Counted family) (ga_port ais port sock_stream w) _
        (ga_port-Counted family port sock_stream ais w h)
        (λ (streams, n) v g.
          and_then-Ensures (Counted family) (Counted family) (ga_port streams port sock_dgram v) _
            (ga_port-Counted family port sock_dgram streams v g) (λ (both, m) u f. f)))
      (ga_port-Counted family port hints.socktype ais w h)

try_name_families :
    (family : ℕ) (r : Resolver) (hints : Hints) (serv : List ℕ) (proto : Protocol) (socktype : ℕ)
    (ais : List AddrInfo) (w : World)
    → AllOf family ais
    → Ensures (Counted family) (try_name r hints serv proto socktype ais w)
unfolding try_name
try_name_families family r hints serv proto socktype ais w h =
    if_Ensures (Counted family) (hints.socktype == 0 || hints.socktype == socktype) _ _ w
      (elim (Option-cases (r.service serv proto)) [
        | inl e ↦ rw e h
        | inr (port, e) ↦ rw e (ga_port-Counted family port socktype ais w h)
      ])
      h

by_name_families :
    (family : ℕ) (r : Resolver) (ais : List AddrInfo) (hints : Hints) (serv : List ℕ) (w : World)
    → AllOf family ais
    → Ensures (Counted family) (by_name r ais hints serv w)
unfolding by_name
by_name_families family r ais hints serv w h =
    and_then-Ensures (Counted family) (Counted family) (try_name r hints serv tcp sock_stream ais w)
      _ (try_name_families family r hints serv tcp sock_stream ais w h)
      (λ (streams, n) v g.
        and_then-Ensures (Counted family) (Counted family)
          (try_name r hints serv udp sock_dgram streams v) _
          (try_name_families family r hints serv udp sock_dgram streams v g) (λ (both, m) u f. f))

any_found_families :
    (family n : ℕ) (ais : List AddrInfo) (hints : Hints) (w : World)
    → AllOf family ais
    → Ensures (AllOf family) (any_found hints (ais, n) w)
unfolding any_found
any_found_families family n ais hints w h =
    if_Ensures (AllOf family) (n == 0) _ _ w
      (if_Ensures (AllOf family) (hints.socktype == 0) _ _ w tt tt) h

-- A service leaves the families as they are.
pub ga_serv_families :
    (family : ℕ) (r : Resolver) (ais : List AddrInfo) (hints : Hints) (serv : List ℕ) (w : World)
    → AllOf family ais
    → Ensures (AllOf family) (ga_serv r ais hints serv w)
unfolding ga_serv
ga_serv_families family r ais hints serv w h =
    let port = htons (atoi_from 0 serv) in
    let result =
      if starts_with_digit serv then by_number ais hints port else by_name r ais hints serv in
    and_then-Ensures (Counted family) (AllOf family) (result w) (any_found hints)
      (if_Ensures (Counted family) (starts_with_digit serv) _ _ w
        (by_number_families family ais hints port w h)
        (by_name_families family r ais hints serv w h))
      (λ (out, n) v g. any_found_families family n out hints v g)
