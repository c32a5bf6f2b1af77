-- ===== src/Gai/Lookup/Families.antt =====
-- The families of the structures that `getaddrinfo` returns.
use unix_network_programming.Base.{
  ℕ, ◌≡◌, inl, inr, List, [], ◌∷◌, Bool, true, false, not, ◌&&◌, Option, none, some, ◌==◌, length,
  All, All-append, arith, Bool-cases,
}
use unix_network_programming.Gai.{
  af_unspec, af_inet, af_inet6, Text, is_blank, text_bytes, Hints, AddrInfo, World, Call, alloc,
  HostAnswer, host_found, host_error, Resolver,
}
use unix_network_programming.Gai.Outcome.{
  Ensures, Anything, Ensures-any, and_then-Ensures, if_Ensures, OfFamily,
}
use unix_network_programming.Gai.Check.{ga_echeck}
use unix_network_programming.Gai.Search.{Search, ga_nsearch}
use unix_network_programming.Gai.Entry.{ga_aistruct}
use unix_network_programming.Gai.Entry.Families.{ga_aistruct_family}
use unix_network_programming.Gai.Service.Families.{AllOf, ga_serv_families}
use unix_network_programming.Gai.Unix.Families.{
  accepted_family, set_canonname_families, ga_unix_families,
}
use unix_network_programming.Gai.Lookup.{
  numeric4, numeric6, use_numeric, entries, wants_canon, save_canon, use_answer, search_as,
  search_host, search_hosts, first_host, return_canon, with_service, finish, internet, is_unix_host,
  is_path, getaddrinfo,
}

-- A round of the loop: the structures, and the canonical name.
abbrev Round : ℕ → List AddrInfo × Text → Type 0
Round family (ais, canon) = All (OfFamily family) ais

use_numeric_families :
    (hints : Hints) (family wanted : ℕ) (bytes : List ℕ) (canon : Text) (w : World)
    → Ensures (Round hints.family) (use_numeric hints family wanted bytes canon w)
unfolding use_numeric
use_numeric_families hints family wanted bytes canon w =
    elim (Bool-cases (not (hints.family == af_unspec) && not (hints.family == family))) [
      | inl e ↦ rw e tt
      | inr e ↦ rw e (
          if_Ensures (Round hints.family) (not (wanted == family)) _ _ w tt (
            and_then-Ensures (λ ai. ai.family ≡ family) (Round hints.family)
              (ga_aistruct hints bytes family w) _ (ga_aistruct_family hints bytes family w)
              (λ ai v h. (accepted_family hints.family family ai e h, tt))))
    ]

entries_families :
    (hints : Hints) (family : ℕ) (addrs : List (List ℕ)) (w : World)
    → (not (hints.family == af_unspec) && not (hints.family == family)) ≡ false
    → Ensures (All (OfFamily hints.family)) (entries hints family addrs w)
unfolding entries
entries_families hints family [] w e = tt
entries_families hints family (bytes ∷ rest) w e =
    let P = All (OfFamily hints.family) in
    and_then-Ensures (λ ai. ai.family ≡ family) P (ga_aistruct hints bytes family w) _
      (ga_aistruct_family hints bytes family w)
      (λ ai v h.
        and_then-Ensures P P (entries hints family rest v) _
          (entries_families hints family rest v e)
          (λ ais u g. (accepted_family hints.family family ai e h, g)))

use_answer_families :
    (hostname : Text) (hints : Hints) (two : Bool) (answer : HostAnswer) (canon : Text) (w : World)
    → Ensures (Round hints.family) (use_answer hostname hints two answer canon w)
unfolding use_answer
use_answer_families hostname hints two (host_error c) canon w =
    if_Ensures (Round hints.family) two _ _ w tt tt
use_answer_families hostname hints two (host_found found) canon w =
    let P = All (OfFamily hints.family) in
    let saved = save_canon (wants_canon hostname hints) canon found.name w in
    elim (Bool-cases (not (hints.family == af_unspec) && not (hints.family == found.addrtype))) [
      | inl e ↦ rw e tt
      | inr e ↦ rw e (
          and_then-Ensures Anything (Round hints.family) saved _ (Ensures-any saved) (λ name v _.
            and_then-Ensures P (Round hints.family) (entries hints found.addrtype found.addr_list v)
              _ (entries_families hints found.addrtype found.addr_list v e) (λ ais u g. g)))
    ]

search_as_families :
    (four six : Option (List ℕ)) (hints : Hints) (s : Search) (canon : Text)
    (asked : Call (List AddrInfo × Text)) (w : World)
    → Ensures (Round hints.family) (asked w)
    → Ensures (Round hints.family) (search_as four six hints s canon asked w)
unfolding search_as
search_as_families (some bytes) six hints s canon asked w h =
    use_numeric_families hints af_inet s.family bytes canon w
search_as_families none (some bytes) hints s canon asked w h =
    use_numeric_families hints af_inet6 s.family bytes canon w
search_as_families none none hints s canon asked w h = h

search_host_families :
    (r : Resolver) (hostname : Text) (hints : Hints) (two : Bool) (s : Search) (canon : Text)
    (w : World)
    → Ensures (Round hints.family) (search_host r hostname hints two s canon w)
unfolding search_host
search_host_families r hostname hints two s canon w =
    search_as_families (numeric4 r s.host) (numeric6 r s.host) hints s canon _ w
      (use_answer_families hostname hints two (r.gethost s.host s.family) canon w)

search_hosts_families :
    (r : Resolver) (hostname : Text) (hints : Hints) (two : Bool) (ss : List Search) (canon : Text)
    (w : World)
    → Ensures (Round hints.family) (search_hosts r hostname hints two ss canon w)
unfolding search_hosts
search_hosts_families r hostname hints two [] canon w = tt
search_hosts_families r hostname hints two (s ∷ ss) canon w =
    let P = Round hints.family in
    and_then-Ensures P P (search_host r hostname hints two s canon w) _
      (search_host_families r hostname hints two s canon w)
      (λ (ais, name) v h.
        and_then-Ensures P P (search_hosts r hostname hints two ss name v) _
          (search_hosts_families r hostname hints two ss name v)
          (λ (more, last) u g. All-append (OfFamily hints.family) ais more h g))

return_canon_families :
    (family : ℕ) (wanted : Bool) (canon : Text) (host : List ℕ) (ais : List AddrInfo) (w : World)
    → AllOf family ais
    → Ensures (AllOf family) (return_canon wanted canon host ais w)
unfolding return_canon
return_canon_families family false canon host ais w h = h
return_canon_families family true (some name) host ais w h =
    set_canonname_families family (some name) ais h
return_canon_families family true none host ais w h =
    and_then-Ensures Anything (AllOf family) (alloc w) _ (Ensures-any (alloc w))
      (λ _ v _. set_canonname_families family (some host) ais h)

finish_families :
    (r : Resolver) (hostname servname : Text) (hints : Hints) (ss : List Search)
    (result : List AddrInfo × Text) (w : World)
    → Round hints.family result
    → Ensures (AllOf hints.family) (finish r hostname servname hints ss result w)
unfolding finish with_service
finish_families r hostname servname hints ss ([], canon) w h = tt
finish_families r hostname servname hints ss (ai ∷ ais, canon) w h =
    let P = AllOf hints.family in
    let named = return_canon (wants_canon hostname hints) canon (first_host ss) (ai ∷ ais) w in
    and_then-Ensures P P named _
      (return_canon_families hints.family (wants_canon hostname hints) canon (first_host ss)
        (ai ∷ ais) w (h, ground arith))
      (λ out v g.
        if_Ensures P (is_blank servname) _ _ v g
          (ga_serv_families hints.family r out hints (text_bytes servname) v g))

internet_families :
    (r : Resolver) (hostname servname : Text) (hints : Hints) (w : World)
    → Ensures (AllOf hints.family) (internet r hostname servname hints w)
unfolding internet
internet_families r hostname servname hints w =
    let P = Round hints.family in
    and_then-Ensures Anything (AllOf hints.family) (ga_nsearch hostname hints w) _
      (Ensures-any (ga_nsearch hostname hints w))
      (λ ss v _.
        and_then-Ensures P (AllOf hints.family)
          (search_hosts r hostname hints (length ss == 2) ss none v) _
          (search_hosts_families r hostname hints (length ss == 2) ss none v)
          (λ result u h. finish_families r hostname servname hints ss result u h))

-- Where `getaddrinfo` returns a list, it has at least one structure, and every structure is of the
-- family that the caller asked for, if he asked for one.
pub getaddrinfo_families :
    (r : Resolver) (hostname servname : Text) (hints : Hints) (w : World)
    → Ensures (AllOf hints.family) (getaddrinfo r hostname servname hints w)
unfolding getaddrinfo
getaddrinfo_families r hostname servname hints w =
    let P = AllOf hints.family in
    let rc = ga_echeck hostname servname hints.flags hints.family hints.socktype in
    if_Ensures P (not (rc == 0)) _ _ w tt (
      if_Ensures P (is_unix_host hostname && is_path servname) _ _ w
        (ga_unix_families r (text_bytes servname) hints w)
        (internet_families r hostname servname hints w))
