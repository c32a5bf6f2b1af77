-- ===== src/Gai/Unix/Families.antt =====
-- The families of the structures that `ga_unix` returns.
use unix_network_programming.Base.{
  ℕ, ◌≡◌, inl, inr, List, [], ◌∷◌, false, ◌==◌, not, ◌&&◌, arith, none, some, bit_and, Bool-cases,
}
use unix_network_programming.Gai.{
  af_unspec, af_local, sock_stream, sock_dgram, ai_canonname, AddrInfo, Hints, World, Resolver,
  Text, alloc,
}
use unix_network_programming.Gai.Outcome.{
  Ensures, Anything, Ensures-any, and_then-Ensures, if_Ensures, OfFamily,
}
use unix_network_programming.Gai.Entry.{ga_aistruct}
use unix_network_programming.Gai.Entry.Families.{ga_aistruct_family}
use unix_network_programming.Gai.Service.Families.{AllOf}
use unix_network_programming.Gai.Unix.{set_canonname, unix_entries, name_host, ga_unix}

-- A family passes the test of the caller's.
pub accepted_family :
    (wanted family : ℕ) (ai : AddrInfo)
    → (not (wanted == af_unspec) && not (wanted == family)) ≡ false
    → ai.family ≡ family
    → OfFamily wanted ai
accepted_family wanted family ai h f = ground arith

pub set_canonname_families :
    (family : ℕ) (name : Text) (ais : List AddrInfo)
    → AllOf family ais
    → AllOf family (set_canonname name ais)
set_canonname_families family name [] h = h
set_canonname_families family name (ai ∷ ais) h = h

unix_entries_families :
    (hints : Hints) (path : List ℕ) (w : World)
    → (not (hints.family == af_unspec) && not (hints.family == af_local)) ≡ false
    → Ensures (AllOf hints.family) (unix_entries hints path w)
unfolding unix_entries
unix_entries_families hints path w h =
    let Local : AddrInfo → Type 0 = λ ai. ai.family ≡ af_local in
    let P = AllOf hints.family in
    let Q = OfFamily hints.family in
    if_Ensures P (hints.socktype == 0) _ _ w
      (and_then-Ensures Local P
        (ga_aistruct (record hints { socktype = sock_stream }) path af_local w) _
        (ga_aistruct_family (record hints { socktype = sock_stream }) path af_local w)
        (λ stream v s.
          and_then-Ensures Local P
            (ga_aistruct (record hints { socktype = sock_dgram }) path af_local v) _
            (ga_aistruct_family (record hints { socktype = sock_dgram }) path af_local v)
            (λ dgram u d. (
              (
                accepted_family hints.family af_local stream h s,
                (accepted_family hints.family af_local dgram h d, tt),
              ),
              ground arith,
            ))))
      (and_then-Ensures Local P (ga_aistruct hints path af_local w) _
        (ga_aistruct_family hints path af_local w)
        (λ only v s. ((accepted_family hints.family af_local only h s, tt), ground arith)))

name_host_families :
    (family : ℕ) (name : Text) (ais : List AddrInfo) (w : World)
    → AllOf family ais
    → Ensures (AllOf family) (name_host name ais w)
unfolding name_host
name_host_families family none ais w h = tt
name_host_families family (some name) ais w h =
    and_then-Ensures Anything (AllOf family) (alloc w) _ (Ensures-any (alloc w))
      (λ _ v _. set_canonname_families family (some name) ais h)

-- A path gives structures of the wanted family.
pub ga_unix_families :
    (r : Resolver) (path : List ℕ) (hints : Hints) (w : World)
    → Ensures (AllOf hints.family) (ga_unix r path hints w)
unfolding ga_unix
ga_unix_families r path hints w =
    let P = AllOf hints.family in
    elim (Bool-cases (not (hints.family == af_unspec) && not (hints.family == af_local))) [
      | inl e ↦ rw e tt
      | inr e ↦ rw e (
          and_then-Ensures P P (unix_entries hints path w) _ (unix_entries_families hints path w e)
            (λ ais v h.
              if_Ensures P (not (bit_and hints.flags ai_canonname == 0)) _ _ v
                (name_host_families hints.family r.nodename ais v h) h))
    ]
