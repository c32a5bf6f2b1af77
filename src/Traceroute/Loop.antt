-- ===== src/Traceroute/Loop.antt =====
-- Which datagrams the loop of traceroute sends, and where it stops.
use unix_network_programming.Base.{
  ℕ, zero, suc, ◌+◌, ◌*◌, ◌≤◌, ◌<◌, ◌≡◌, refl, sym, ap, ap₂, subst, ◌∙◌, List, [], ◌∷◌, ◌++◌,
  append-nil, append_assoc, length, length-append, ◌⊎◌, inl, inr, ◌==◌, then_branch, else_branch,
  arith,
}
use unix_network_programming.Traceroute.{
  Code, Ports, Outcome, returned, exits, waits, Arrival, recv_v4, Probe, Trace, Run, goes, stops,
  bind, probe_of, send_probe, arrived, on_code, send_probes, ttl_loop, start, traceloop,
}

-- The n datagrams behind number `seq` with this ttl, and those of k values of ttl.
abbrev pub probes_from : Ports → ℕ → ℕ → ℕ → List Probe
probes_from ports zero seq ttl = []
probes_from ports (suc n) seq ttl = probe_of ports (seq + 1) ttl ∷ probes_from ports n (seq + 1) ttl

abbrev pub schedule : Ports → ℕ → ℕ → ℕ → ℕ → List Probe
schedule ports nprobes zero seq ttl = []
schedule ports nprobes (suc k) seq ttl =
    probes_from ports nprobes seq ttl ++ schedule ports nprobes k (seq + nprobes) (ttl + 1)

-- How many of the codes say that the port was unreachable.
abbrev pub reached : List Code → ℕ
reached [] = 0
reached (c ∷ cs) = arrived c + reached cs

reached-append : (cs ds : List Code) → reached (cs ++ ds) ≡ reached cs + reached ds
reached-append [] ds = omega arith
reached-append (c ∷ cs) ds = omega (arith, reached-append cs ds)

-- A run that was not stopped by an error, or by a wait that does not end.
abbrev pub On : (Trace → Type 0) → Run → Type 0
On P (goes t) = P t
On P (stops t) = Unit

On-map : (P Q : Trace → Type 0) (r : Run) → ((t : Trace) → P t → Q t) → On P r → On Q r
On-map P Q (goes t) f h = f t h
On-map P Q (stops t) f h = tt

On-bind :
    (P Q : Trace → Type 0) (r : Run) (k : Trace → Run)
    → On P r
    → ((t : Trace) → P t → On Q (k t))
    → On Q (bind r k)
On-bind P Q (goes t) k h f = f t h
On-bind P Q (stops t) k h f = tt

abbrev Probed : Ports → ℕ → ℕ → Trace → Trace → Type 0
Probed ports n ttl t t' =
    (t'.seq ≡ t.seq + n)
    × (t'.sent ≡ t.sent ++ probes_from ports n t.seq ttl)
    × (cs : List Code) × (t'.codes ≡ t.codes ++ cs)
    × (length cs ≡ n)
    × (t'.done ≡ t.done + reached cs)

on_code-Probed :
    (ports : Ports) (n ttl : ℕ) (t : Trace) (o : Outcome)
    → ((u : Trace) → On (Probed ports n ttl u) (send_probes ports n ttl u))
    → On
        (Probed ports (suc n) ttl t)
        (bind (on_code o (send_probe ports ttl t)) (send_probes ports n ttl))
on_code-Probed ports n ttl t exits k = tt
on_code-Probed ports n ttl t waits k = tt
on_code-Probed ports n ttl t (returned code es) k =
    let t1 = send_probe ports ttl t in
    let u : Trace = record t1 {
      done = t.done + arrived code;
      codes = t.codes ++ code ∷ [];
      arrivals = es;
    } in
    On-map (Probed ports n ttl u) (Probed ports (suc n) ttl t) (send_probes ports n ttl u)
      (λ t' (sq, st, cs, cd, l, d). (
        omega (arith, sq),
        st
            ∙ append_assoc t.sent (probe_of ports (t.seq + 1) ttl ∷ [])
                (probes_from ports n (t.seq + 1) ttl),
        code ∷ cs,
        cd ∙ append_assoc t.codes (code ∷ []) cs,
        omega (arith, l),
        omega (arith, d),
      ))
      (k u)

send_probes-Probed :
    (ports : Ports) (n ttl : ℕ) (t : Trace) → On (Probed ports n ttl t) (send_probes ports n ttl t)
unfolding send_probes
send_probes-Probed ports zero ttl t =
    (omega arith, sym (append-nil t.sent), [], sym (append-nil t.codes), refl, omega arith)
send_probes-Probed ports (suc n) ttl t =
    on_code-Probed ports n ttl t (recv_v4 ports (t.seq + 1) t.arrivals)
      (send_probes-Probed ports n ttl)

-- From `t` on, with `left` values of ttl.
abbrev pub Traced : Ports → ℕ → ℕ → ℕ → Trace → Trace → Type 0
Traced ports nprobes left ttl t t' =
    (k : ℕ) × (k ≤ left)
    × (t'.sent ≡ t.sent ++ schedule ports nprobes k t.seq ttl)
    × (before : List Code) × (last : List Code) × (t'.codes ≡ t.codes ++ (before ++ last))
    × (length before + length last ≡ k * nprobes)
    × (length last ≤ nprobes)
    × (reached before ≡ 0)
    × ((k ≡ left) × (reached last ≡ 0) ⊎ (0 < reached last))

loop_done :
    (ports : Ports) (nprobes left ttl : ℕ) (t : Trace)
    → 0 < t.done
    → ttl_loop ports nprobes left ttl t ≡ goes t
unfolding ttl_loop
loop_done ports nprobes zero ttl t h = refl
loop_done ports nprobes (suc left) ttl t h = else_branch {b = t.done == 0} _ _ (ground arith)

next-Traced :
    (ports : Ports) (nprobes left ttl : ℕ) (t u : Trace) (d : ℕ)
    → t.done ≡ 0
    → Probed ports nprobes ttl t u
    → u.done ≡ d
    → ((v : Trace)
        → v.done ≡ 0
        → On (Traced ports nprobes left (ttl + 1) v) (ttl_loop ports nprobes left (ttl + 1) v))
    → On (Traced ports nprobes (suc left) ttl t) (ttl_loop ports nprobes left (ttl + 1) u)
next-Traced ports nprobes left ttl t u zero z (sq, st, cs, cd, l, dn) e k =
    On-map (Traced ports nprobes left (ttl + 1) u) (Traced ports nprobes (suc left) ttl t)
      (ttl_loop ports nprobes left (ttl + 1) u)
      (λ t' (n, b, sn, before, last, co, ln, ll, rb, w). (
        suc n,
        omega (arith, b),
        sn
            ∙ ap₂ (λ xs m. xs ++ schedule ports nprobes n m (ttl + 1)) st sq
            ∙ append_assoc t.sent (probes_from ports nprobes t.seq ttl)
                (schedule ports nprobes n (t.seq + nprobes) (ttl + 1)),
        cs ++ before,
        last,
        co
            ∙ ap (λ xs. xs ++ (before ++ last)) cd
            ∙ append_assoc t.codes cs (before ++ last)
            ∙ ap (t.codes ++◌) (sym (append_assoc cs before last)),
        ap (λ m. m + length last) (length-append cs before) ∙ omega (arith, l, ln),
        ll,
        reached-append cs before ∙ omega (arith, z, e, dn, rb),
        more n last w,
      ))
      (k u e)
  where
    more :
        (n : ℕ)
        → (last : List Code) → ((n ≡ left) × (reached last ≡ 0) ⊎ (0 < reached last))
        → ((suc n ≡ suc left) × (reached last ≡ 0) ⊎ (0 < reached last))
    more n last (inl (a, b)) = inl (ap suc a, b)
    more n last (inr b) = inr b
next-Traced ports nprobes left ttl t u (suc d) z (sq, st, cs, cd, l, dn) e k =
    subst (On (Traced ports nprobes (suc left) ttl t))
      (sym (loop_done ports nprobes left (ttl + 1) u (omega (arith, e))))
      (
        suc zero,
        omega arith,
        st ∙ ap (t.sent ++◌) (sym (append-nil (probes_from ports nprobes t.seq ttl))),
        [],
        cs,
        cd,
        omega (arith, l),
        omega (arith, l),
        refl,
        inr (omega (arith, z, e, dn)),
      )

ttl_loop-Traced :
    (ports : Ports) (nprobes left ttl : ℕ) (t : Trace)
    → t.done ≡ 0
    → On (Traced ports nprobes left ttl t) (ttl_loop ports nprobes left ttl t)
unfolding ttl_loop
ttl_loop-Traced ports nprobes zero ttl t z = (
  zero,
  omega arith,
  sym (append-nil t.sent),
  [],
  [],
  sym (append-nil t.codes),
  omega arith,
  omega arith,
  refl,
  inl (refl, refl),
)
ttl_loop-Traced ports nprobes (suc left) ttl t z =
    subst (On (Traced ports nprobes (suc left) ttl t))
      (sym (then_branch {b = t.done == 0} _ _ (ground arith)))
      (On-bind (Probed ports nprobes ttl t) (Traced ports nprobes (suc left) ttl t)
        (send_probes ports nprobes ttl t) (ttl_loop ports nprobes left (ttl + 1))
        (send_probes-Probed ports nprobes ttl t)
        (λ u h.
          next-Traced ports nprobes left ttl t u u.done z h refl
            (ttl_loop-Traced ports nprobes left (ttl + 1))))

-- Unless an error or a wait that does not end stops it, traceloop sends for k values of ttl, from 1 on and
-- at most max_ttl, nprobes datagrams each, whose numbers, and so ports, follow each other without a gap. It
-- goes on behind a round in which no port was unreachable, up to max_ttl; only the answers of the last
-- round come from the destination.
pub traceloop-Traced :
    (ports : Ports) (nprobes max_ttl : ℕ) (es : List Arrival)
    → On (Traced ports nprobes max_ttl 1 (start es)) (traceloop ports nprobes max_ttl es)
unfolding traceloop
traceloop-Traced ports nprobes max_ttl es = ttl_loop-Traced ports nprobes max_ttl 1 (start es) refl
