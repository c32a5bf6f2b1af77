-- ===== src/Traceroute/Laws.antt =====
-- Which packets end the wait of traceroute, and what it reads of them.
use unix_network_programming.Base.{
  ℕ, ◌+◌, ◌≤◌, ◌≡◌, ◌≢◌, ◌⊎◌, Bool-cases, inl, inr, ◌%◌, ◌^◌, refl, sym, ap, ap₂, ◌∙◌, List, [],
  ◌∷◌, ◌++◌, Bool, true, false, ◌&&◌, none, some, ◌==◌, ltb, if◌then◌else◌, then_branch,
  else_branch, All, arith,
}
use unix_network_programming.Icmpd.Errors.{Packet, header_length, udp_protocol}
use unix_network_programming.Traceroute.{
  Code, Ports, timed_out, in_transit, at_destination, unreachable, net16, is_probe, about_probe,
  unreachable_code, answer, Arrival, alarm_rings, late_alarm, interrupted, failed, packet, returned,
  waits, on_answer, wait, recv_v4,
}

-- The bytes of an ICMP error about the probe, complete up to the ports.
abbrev pub IsAbout : Ports → ℕ → Packet → Type 0
IsAbout ports seq p =
    let icmp = header_length p.byte 0 in
    let hip = icmp + 8 in
    let udp = hip + header_length p.byte hip in
    (icmp + (8 + 20) ≤ p.size)
    × (icmp + (8 + header_length p.byte hip + 4) ≤ p.size)
    × (p.byte (hip + 9) ≡ udp_protocol)
    × (net16 p.byte udp ≡ ports.sport)
    × (net16 p.byte (udp + 2) ≡ (ports.dport + seq) % 2 ^ 16)

-- What it says.
abbrev pub Says : Packet → Code → Type 0
Says p code =
    let icmp = header_length p.byte 0 in
    ((p.byte icmp ≡ 11) × (p.byte (icmp + 1) ≡ 0) × (code ≡ in_transit))
    ⊎ ((p.byte icmp ≡ 3) × (p.byte (icmp + 1) ≡ 3) × (code ≡ at_destination))
    ⊎ ((p.byte icmp ≡ 3) × (p.byte (icmp + 1) ≢ 3) × (code ≡ unreachable (p.byte (icmp + 1))))

all_equal : (a b c d e f : ℕ) → a ≡ b → c ≡ d → e ≡ f → (a == b && (c == d && e == f)) ≡ true
all_equal a b c d e f p q r = ground arith

about_probe_lem :
    (ports : Ports) (seq : ℕ) (p : Packet) (code : Code)
    → IsAbout ports seq p
    → about_probe ports seq p code ≡ some code
about_probe_lem ports seq p code (l, m, u, v, w) =
    let icmp = header_length p.byte 0 in
    let hip = icmp + 8 in
    let udp = hip + header_length p.byte hip in
    else_branch {b = ltb p.size (icmp + (8 + 20))} _ _ (ground arith)
    ∙ else_branch {b = ltb p.size (icmp + (8 + header_length p.byte hip + 4))} _ _ (ground arith)
    ∙ then_branch {b = is_probe ports seq p.byte hip udp} _ _ (
        all_equal (p.byte (hip + 9)) udp_protocol (net16 p.byte udp) ports.sport
          (net16 p.byte (udp + 2)) ((ports.dport + seq) % 2 ^ 16) u v w)

answer_lem :
    (ports : Ports) (seq : ℕ) (p : Packet) (code : Code)
    → IsAbout ports seq p
    → Says p code
    → answer ports seq p ≡ some code
unfolding answer
answer_lem ports seq p code h s =
    else_branch {b = ltb p.size (header_length p.byte 0 + 8)} _ _ (long h.0) ∙ by_type s
  where
    icmp : ℕ
    icmp = header_length p.byte 0

    long : icmp + (8 + 20) ≤ p.size → ltb p.size (icmp + 8) ≡ false
    long l = ground arith

    exceeded : Bool
    exceeded = p.byte icmp == 11 && p.byte (icmp + 1) == 0

    unreached : p.byte icmp ≡ 3 → exceeded ≡ false
    unreached q = ap (λ n. n == 11 && p.byte (icmp + 1) == 0) q

    by_type :
        Says p code
        → (if exceeded
            then about_probe ports seq p in_transit
            else if p.byte icmp == 3
            then about_probe ports seq p (unreachable_code (p.byte (icmp + 1)))
            else none)
          ≡ some code
    by_type (inl (t, c, e)) =
        then_branch {b = exceeded} _ _ (ap₂ (λ m n. m == 11 && n == 0) t c)
        ∙ about_probe_lem ports seq p in_transit h
        ∙ ap some (sym e)
    by_type (inr (inl (t, c, e))) =
        else_branch {b = exceeded} _ _ (unreached t)
        ∙ then_branch {b = p.byte icmp == 3} _ _ (ap (λ n. n == 3) t)
        ∙ about_probe_lem ports seq p (unreachable_code (p.byte (icmp + 1))) h
        ∙ ap some (ap unreachable_code c ∙ sym e)
    by_type (inr (inr (t, c, e))) =
        else_branch {b = exceeded} _ _ (unreached t)
        ∙ then_branch {b = p.byte icmp == 3} _ _ (ap (λ n. n == 3) t)
        ∙ about_probe_lem ports seq p (unreachable_code (p.byte (icmp + 1))) h
        ∙ ap some (else_branch {b = p.byte (icmp + 1) == 3} _ _ (ground arith) ∙ sym e)

-- An error about the probe that ends the wait.
abbrev pub IsAnswer : Ports → ℕ → Packet → Type 0
IsAnswer ports seq p = IsAbout ports seq p × ((code : Code) × Says p code)

about_probe-none :
    (ports : Ports) (seq : ℕ) (p : Packet) (code : Code)
    → ¬ IsAbout ports seq p
    → about_probe ports seq p code ≡ none
about_probe-none ports seq p code h = elim (Bool-cases (ltb p.size (icmp + (8 + 20)))) [
  | inl e ↦ then_branch {b = ltb p.size (icmp + (8 + 20))} _ _ e
  | inr e ↦
      else_branch {b = ltb p.size (icmp + (8 + 20))} _ _ e
      ∙ (elim (Bool-cases (ltb p.size (icmp + (8 + hlen2 + 4)))) [
        | inl f ↦ then_branch {b = ltb p.size (icmp + (8 + hlen2 + 4))} _ _ f
        | inr f ↦
            else_branch {b = ltb p.size (icmp + (8 + hlen2 + 4))} _ _ f
            ∙ else_branch {b = is_probe ports seq p.byte hip (hip + hlen2)} _ _
                (other (ground arith) (ground arith))
      ])
]
  where
    icmp : ℕ
    icmp = header_length p.byte 0

    hip : ℕ
    hip = icmp + 8

    hlen2 : ℕ
    hlen2 = header_length p.byte hip

    all_fields :
        (a b c d e f : ℕ) → (a == b && (c == d && e == f)) ≡ true → (a ≡ b) × (c ≡ d) × (e ≡ f)
    all_fields a b c d e f q = (ground arith, ground arith, ground arith)

    other :
        icmp + (8 + 20) ≤ p.size
        → icmp + (8 + hlen2 + 4) ≤ p.size
        → is_probe ports seq p.byte hip (hip + hlen2) ≡ false
    other l m = elim (Bool-cases (is_probe ports seq p.byte hip (hip + hlen2))) [
      | inr e ↦ e
      | inl e ↦
          let (u, v, w) =
            all_fields (p.byte (hip + 9)) udp_protocol (net16 p.byte (hip + hlen2)) ports.sport
              (net16 p.byte (hip + hlen2 + 2)) ((ports.dport + seq) % 2 ^ 16) e in
          absurd (h (l, m, u, v, w))
    ]

answer_none :
    (ports : Ports) (seq : ℕ) (p : Packet) → ¬ IsAnswer ports seq p → answer ports seq p ≡ none
unfolding answer
answer_none ports seq p h = elim (Bool-cases (ltb p.size (icmp + 8))) [
  | inl e ↦ then_branch {b = ltb p.size (icmp + 8)} _ _ e
  | inr e ↦ else_branch {b = ltb p.size (icmp + 8)} _ _ e ∙ (elim (Bool-cases exceeded) [
    | inl f ↦
        then_branch {b = exceeded} _ _ f
        ∙ about_probe-none ports seq p in_transit
            (λ a. h (a, (in_transit, inl (ground arith, ground arith, refl))))
    | inr f ↦ else_branch {b = exceeded} _ _ f ∙ (elim (Bool-cases (p.byte icmp == 3)) [
      | inl g ↦
          then_branch {b = p.byte icmp == 3} _ _ g
          ∙ about_probe-none ports seq p (unreachable_code (p.byte (icmp + 1)))
              (λ a. h (a, unreached (ground arith)))
      | inr g ↦ else_branch {b = p.byte icmp == 3} _ _ g
    ])
  ])
]
  where
    icmp : ℕ
    icmp = header_length p.byte 0

    exceeded : Bool
    exceeded = p.byte icmp == 11 && p.byte (icmp + 1) == 0

    unreached : p.byte icmp ≡ 3 → (code : Code) × Says p code
    unreached t = elim (Bool-cases (p.byte (icmp + 1) == 3)) [
      | inl c ↦ (at_destination, inr (inl (t, ground arith, refl)))
      | inr c ↦ (unreachable (p.byte (icmp + 1)), inr (inr (t, (λ q. ground arith), refl)))
    ]

-- Packets that are no error about the probe, and interruptions that are not by the alarm.
abbrev pub IsNoise : Ports → ℕ → Arrival → Type 0
IsNoise ports seq (packet p) = ¬ IsAnswer ports seq p
IsNoise ports seq interrupted = Unit
IsNoise ports seq alarm_rings = ⊥
IsNoise ports seq late_alarm = ⊥
IsNoise ports seq failed = ⊥

wait_noise :
    (ports : Ports) (seq : ℕ) (noise es : List Arrival)
    → All (IsNoise ports seq) noise
    → wait ports seq false (noise ++ es) ≡ wait ports seq false es
unfolding wait
wait_noise ports seq [] es h = refl
wait_noise ports seq (packet p ∷ noise) es (h, hs) =
    ap (λ o. on_answer o false (noise ++ es) (wait ports seq false (noise ++ es)))
      (answer_none ports seq p h)
    ∙ wait_noise ports seq noise es hs
wait_noise ports seq (interrupted ∷ noise) es (h, hs) = wait_noise ports seq noise es hs
wait_noise ports seq (alarm_rings ∷ noise) es (h, hs) = absurd h
wait_noise ports seq (late_alarm ∷ noise) es (h, hs) = absurd h
wait_noise ports seq (failed ∷ noise) es (h, hs) = absurd h

-- Behind packets that are no complete ICMP error about the probe and calls that were interrupted, recv_v4 returns
-- what the first complete ICMP error about the probe says: in transit for an exceeded time, the
-- destination for an unreachable port, and the code of another unreachable message. When the alarm rings
-- first, it returns that it timed out. It leaves what arrives later.
pub recv_v4_first :
    (ports : Ports) (seq : ℕ) (noise es : List Arrival) (p : Packet) (code : Code)
    → All (IsNoise ports seq) noise
    → IsAbout ports seq p
    → Says p code
    → (recv_v4 ports seq (noise ++ packet p ∷ es) ≡ returned code es)
      × (recv_v4 ports seq (noise ++ alarm_rings ∷ packet p ∷ es)
          ≡ returned timed_out (packet p ∷ es))
unfolding recv_v4 wait
recv_v4_first ports seq noise es p code h a s = (
  wait_noise ports seq noise (packet p ∷ es) h
      ∙ ap (λ o. on_answer o false es (wait ports seq false es)) (answer_lem ports seq p code a s),
  wait_noise ports seq noise (alarm_rings ∷ packet p ∷ es) h,
)

-- An alarm that rings between the test of gotalarm and recvfrom is lost: with no packet behind it,
-- recv_v4 waits for ever.
pub recv_v4_lost :
    (ports : Ports) (seq : ℕ) (noise : List Arrival)
    → All (IsNoise ports seq) noise
    → recv_v4 ports seq (noise ++ late_alarm ∷ []) ≡ waits
unfolding recv_v4 wait
recv_v4_lost ports seq noise h = wait_noise ports seq noise (late_alarm ∷ []) h
