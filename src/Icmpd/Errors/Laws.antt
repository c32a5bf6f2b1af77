-- ===== src/Icmpd/Errors/Laws.antt =====
-- Who is told about an ICMP error.
use unix_network_programming.Base.{
  ℕ, zero, suc, ◌+◌, ◌≤◌, ◌≡◌, refl, sym, ap, ◌∙◌, List, [], ◌∷◌, ◌++◌, Bool, true, false, ◌&&◌,
  Option, none, some, ◌==◌, ltb, arith, then_branch, else_branch,
}
use unix_network_programming.Gai.{af_inet}
use unix_network_programming.Icmpd.{Client, IcmpdErr, Effect, report, State}
use unix_network_programming.Icmpd.Clients.{is_free}
use unix_network_programming.Icmpd.Clients.Laws.{Covers, IsCovered}
use unix_network_programming.Icmpd.Errors.{
  Packet, udp_protocol, field16, header_length, same_port, report_to, report_all, error4, is_error4,
  reports4, with_reports, readable_v4,
}

-- The descriptors of the clients, wherever they stand, that have this family and port.
abbrev pub add_if : Bool → Option ℕ → List ℕ → List ℕ
add_if true (some fd) fds = fd ∷ fds
add_if true none fds = fds
add_if false o fds = fds

abbrev pub listeners : ℕ → ℕ → List Client → List ℕ
listeners family sport [] = []
listeners family sport (c ∷ cs) =
    add_if (c.family == family && same_port c.lport sport) c.connfd (listeners family sport cs)

abbrev pub tell_all : IcmpdErr → List ℕ → List Effect
tell_all e [] = []
tell_all e (fd ∷ fds) = report fd e ∷ tell_all e fds

tell_all-add_if :
    (b : Bool) (o : Option ℕ) (e : IcmpdErr) (fds : List ℕ)
    → report_to o b e ++ tell_all e fds ≡ tell_all e (add_if b o fds)
tell_all-add_if true (some fd) e fds = refl
tell_all-add_if true none e fds = refl
tell_all-add_if false (some fd) e fds = refl
tell_all-add_if false none e fds = refl

-- A place that is free is nobody's.
add_if_free : (b : Bool) (o : Option ℕ) (fds : List ℕ) → is_free o ≡ true → add_if b o fds ≡ fds
add_if_free true none fds h = refl
add_if_free true (some fd) fds h = ground arith
add_if_free false o fds h = refl

all_free-listeners :
    (family sport : ℕ) (cs : List Client) → Covers zero cs → listeners family sport cs ≡ []
all_free-listeners family sport [] h = refl
all_free-listeners family sport (c ∷ cs) (h, hs) =
    add_if_free (c.family == family && same_port c.lport sport) c.connfd (listeners family sport cs)
      h
    ∙ all_free-listeners family sport cs hs

report_all-listeners :
    (used family sport : ℕ) (e : IcmpdErr) (cs : List Client)
    → Covers used cs
    → report_all used family sport e cs ≡ tell_all e (listeners family sport cs)
unfolding report_all
report_all-listeners zero family sport e cs h =
    sym (ap (tell_all e) (all_free-listeners family sport cs h))
report_all-listeners (suc used) family sport e [] h = refl
report_all-listeners (suc used) family sport e (c ∷ cs) h =
    ap (report_to c.connfd (c.family == family && same_port c.lport sport) e ++◌)
      (report_all-listeners used family sport e cs h)
    ∙ tell_all-add_if (c.family == family && same_port c.lport sport) c.connfd e
        (listeners family sport cs)

-- Where no client stands behind the part of the table in use, and an ICMP message of 36 bytes or
-- more says that a UDP datagram was not delivered, readable_v4 tells each client that has the IPv4
-- port the datagram came from, and no other, in the order of the table.
pub readable_v4_tells :
    (p : Packet) (s : State)
    → IsCovered s
    → header_length p.byte 0 + 36 ≤ p.size
    → is_error4 (p.byte (header_length p.byte 0)) ≡ true
    → p.byte (header_length p.byte 0 + 8 + 9) ≡ udp_protocol
    → (let icmp = header_length p.byte 0 in
        let hip = icmp + 8 in
        let udp = hip + header_length p.byte hip in
        readable_v4 p s
        ≡ with_reports
            (tell_all
              (error4 p.byte icmp hip udp)
              (listeners af_inet (field16 p.byte udp) s.client))
            s)
unfolding readable_v4 reports4
readable_v4_tells p s c l e u =
    let icmp = header_length p.byte 0 in
    let hip = icmp + 8 in
    let udp = hip + header_length p.byte hip in
    else_branch {b = ltb p.size (icmp + 8)} _ _ (ground arith)
    ∙ then_branch {b = is_error4 (p.byte icmp)} _ _ e
    ∙ else_branch {b = ltb p.size (icmp + (8 + 20 + 8))} _ _ (ground arith)
    ∙ ap (λ es. with_reports es s)
        (then_branch {b = p.byte (hip + 9) == udp_protocol} _ _ (ground arith)
          ∙ report_all-listeners s.used af_inet (field16 p.byte udp) (error4 p.byte icmp hip udp)
              s.client c)
