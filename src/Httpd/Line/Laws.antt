-- ===== src/Httpd/Line/Laws.antt =====
-- What `get_line` leaves in the buffer.
use unix_network_programming.Base.{
  ℕ, zero, suc, ◌+◌, ◌-◌, ◌≤◌, ◌<◌, ◌≡◌, refl, sym, ap, ◌∙◌, List, [], ◌∷◌, ◌++◌, append_assoc,
  Option, some, Bool, true, false, not, ◌&&◌, ◌⊎◌, inl, inr, ◌==◌, if◌then◌else◌, arith, Bool-cases,
  length, drop, length-append, length-drop, set-append, ltb,
}
use unix_network_programming.ByteIo.{Arrival, chunk, failure, ReadResult, got, failed, read, size}
use unix_network_programming.Httpd.Line.{
  GetLine, result, carriage_return, newline, on_read, get_line_loop, get_line,
}

-- The bytes before the end of file or the first failure, an interruption included.
abbrev pub readable : List Arrival → List ℕ
readable [] = []
readable (failure e ∷ s) = []
readable (chunk [] ∷ s) = []
readable (chunk (b ∷ bs) ∷ s) = (b ∷ bs) ++ readable s

-- The line that `bs` begin with: without carriage returns, up to a newline or `k` bytes.
abbrev pub take_line : ℕ → List ℕ → List ℕ
take_line zero bs = []
take_line (suc k) [] = []
take_line (suc k) (c ∷ bs) =
    let skip = take_line (suc k) bs in
    let more = c ∷ take_line k bs in
    if c == carriage_return then skip else if c == newline then [] else more

-- The bytes behind that line.
abbrev pub behind_line : ℕ → List ℕ → List ℕ
behind_line zero bs = bs
behind_line (suc k) [] = []
behind_line (suc k) (c ∷ bs) =
    let skip = behind_line (suc k) bs in
    let more = behind_line k bs in
    if c == carriage_return then skip else if c == newline then bs else more

-- No read fails, and none finds an end of file in front of the last byte.
abbrev pub Flows : List Arrival → Type 0
Flows [] = Unit
Flows (failure e ∷ s) = ⊥
Flows (chunk [] ∷ s) = ⊥
Flows (chunk (b ∷ bs) ∷ s) = Flows s

-- Whether it ends at a newline.
abbrev pub terminated : ℕ → List ℕ → Bool
terminated zero bs = false
terminated (suc k) [] = false
terminated (suc k) (c ∷ bs) =
    let skip = terminated (suc k) bs in
    let more = terminated k bs in
    if c == carriage_return then skip else if c == newline then true else more

-- The buffer `old` after such a line is stored: a null follows the line only behind a newline.
abbrev pub stored_line : ℕ → List ℕ → List ℕ → List ℕ
stored_line k bs old =
    let l = take_line k bs in
    l ++ (if terminated k bs then 0 ∷ drop (length l + 1) old else drop (length l) old)

-- One call of `read` for a byte, on a stream whose readable bytes are `bs`.
abbrev OneByte : List ℕ → List Arrival → ReadResult × List Arrival → Type 0
OneByte [] s r = (r.0 ≡ got []) ⊎ ((e : ℕ) × (r.0 ≡ failed e))
OneByte (c ∷ bs) s r = (r.0 ≡ got (c ∷ [])) × (readable r.1 ≡ bs) × (size r.1 < size s)

read-OneByte : (s : List Arrival) → OneByte (readable s) s (read 1 s)
unfolding read
read-OneByte [] = inl refl
read-OneByte (failure e ∷ s) = inr (e, refl)
read-OneByte (chunk [] ∷ s) = inl refl
read-OneByte (chunk (b ∷ []) ∷ s) = (refl, refl, omega arith)
read-OneByte (chunk (b ∷ c ∷ bs) ∷ s) = (refl, refl, omega arith)

read-Flows : (s : List Arrival) → Flows s → Flows (read 1 s).1
unfolding read
read-Flows [] h = tt
read-Flows (failure e ∷ s) h = absurd h
read-Flows (chunk [] ∷ s) h = absurd h
read-Flows (chunk (b ∷ []) ∷ s) h = h
read-Flows (chunk (b ∷ c ∷ bs) ∷ s) h = h

-- At the end of such a stream nothing is left.
read_at_end : (s : List Arrival) → Flows s → readable s ≡ [] → readable (read 1 s).1 ≡ []
unfolding read
read_at_end [] h e = refl
read_at_end (failure x ∷ s) h e = absurd h
read_at_end (chunk [] ∷ s) h e = absurd h
read_at_end (chunk (b ∷ bs) ∷ s) h e = absurd (omega (arith, ap length e))

size-read_le : (s : List Arrival) → size (read 1 s).1 ≤ size s
unfolding read
size-read_le [] = omega arith
size-read_le (failure e ∷ s) = omega arith
size-read_le (chunk [] ∷ s) = omega arith
size-read_le (chunk (b ∷ []) ∷ s) = omega arith
size-read_le (chunk (b ∷ c ∷ bs) ∷ s) = omega arith

-- The loop's result with `pre` stored, room for `k` more bytes, and the old bytes `old` behind.
record IsLine (k : ℕ) (bs pre old : List ℕ) (s : List Arrival) (run : Option GetLine) : Type 0 where
  rest : List Arrival
  ends :
      run
      ≡ some (record {
        count = length pre + length (take_line k bs);
        buf = pre ++ stored_line k bs old;
        input = rest;
      })
  smaller : size rest + length (take_line k bs) ≤ size s
  behind : Flows s → Flows rest × (readable rest ≡ behind_line k bs)

room_left :
    (bufsize ch k count : ℕ)
    → (ch == newline) ≡ false
    → count + suc k + 1 ≡ bufsize
    → (ltb count (bufsize - 1) && not (ch == newline)) ≡ true
room_left bufsize ch k count n e = ground arith

module _ (k c : ℕ) (bs : List ℕ) (o : ℕ) (old : List ℕ) where
  take_line_cr : (c == carriage_return) ≡ true → take_line (suc k) (c ∷ bs) ≡ take_line (suc k) bs
  take_line_cr h = rw h

  behind_line_cr :
      (c == carriage_return) ≡ true → behind_line (suc k) (c ∷ bs) ≡ behind_line (suc k) bs
  behind_line_cr h = rw h

  behind_line_more :
      (c == carriage_return) ≡ false
      → (c == newline) ≡ false
      → behind_line (suc k) (c ∷ bs) ≡ behind_line k bs
  behind_line_more h n = rw (h, n)

  behind_line_last :
      (c == carriage_return) ≡ false → (c == newline) ≡ true → behind_line (suc k) (c ∷ bs) ≡ bs
  behind_line_last h n = rw (h, n)

  stored_line_cr :
      (c == carriage_return) ≡ true
      → stored_line (suc k) (c ∷ bs) (o ∷ old) ≡ stored_line (suc k) bs (o ∷ old)
  stored_line_cr h = rw h

  take_line_more :
      (c == carriage_return) ≡ false
      → (c == newline) ≡ false
      → take_line (suc k) (c ∷ bs) ≡ c ∷ take_line k bs
  take_line_more h n = rw (h, n)

  stored_line_more :
      (c == carriage_return) ≡ false
      → (c == newline) ≡ false
      → stored_line (suc k) (c ∷ bs) (o ∷ old) ≡ c ∷ stored_line k bs old
  stored_line_more h n =
      let e : suc (length (take_line k bs)) + 1 ≡ suc (length (take_line k bs) + 1) = omega arith in
      rw (h, n, e)

-- One byte, given what the loop does behind a carriage return and behind a byte that is stored.
on_byte :
    (fuel bufsize ch k c : ℕ) (bs pre : List ℕ) (o : ℕ) (old : List ℕ) (s s' : List Arrival)
    → size s' < size s
    → (Flows s → Flows s')
    → readable s' ≡ bs
    → ((c == carriage_return) ≡ true
        → IsLine
            (suc k)
            bs
            pre
            (o ∷ old)
            s'
            (get_line_loop fuel bufsize (length pre) c (pre ++ o ∷ old) s'))
    → ((c == newline) ≡ false
        → IsLine k bs
            (pre ++ c ∷ [])
            old
            s'
            (get_line_loop fuel bufsize (length (pre ++ c ∷ [])) c ((pre ++ c ∷ []) ++ old) s'))
    → IsLine
        (suc k)
        (c ∷ bs)
        pre
        (o ∷ old)
        s
        (on_read (get_line_loop fuel bufsize) (length pre) ch (pre ++ o ∷ old) (got (c ∷ [])) s')
unfolding on_read
on_byte fuel bufsize ch k c bs pre o old s s' smaller flows one cr store =
    elim (Bool-cases (c == carriage_return)) [
      | inl is_cr ↦
          let rest = cr is_cr in
          record {
            rest = rest.rest;
            ends =
                rw (stored_line_cr k c bs o old is_cr, take_line_cr k c bs o old is_cr, is_cr)
                  rest.ends;
            smaller = rw (take_line_cr k c bs o old is_cr) (omega (arith, rest.smaller));
            behind = λ h.
                let (f, e) = rest.behind (flows h) in
                (f, e ∙ sym (behind_line_cr k c bs o old is_cr));
          }
      | inr not_cr ↦ elim (Bool-cases (c == newline)) [
        | inl is_nl ↦
            rw (not_cr, is_nl, set-append pre o 0 old)
              (record {
                rest = s';
                ends = rw (not_cr, is_nl) (ap (λ m. result m (pre ++ 0 ∷ old) s') (omega arith));
                smaller = rw (not_cr, is_nl) (omega arith);
                behind = λ h. (flows h, one ∙ sym (behind_line_last k c bs o old not_cr is_nl));
              })
        | inr not_nl ↦
            let rest = store not_nl in
            let more = take_line_more k c bs o old not_cr not_nl in
            let count : length (pre ++ c ∷ []) ≡ length pre + 1 = length-append pre (c ∷ []) in
            record {
              rest = rest.rest;
              ends =
                  rw
                    (
                      stored_line_more k c bs o old not_cr not_nl,
                      more,
                      not_cr,
                      not_nl,
                      set-append pre o c old,
                    )
                    (rw
                        (
                          count,
                          append_assoc pre (c ∷ []) old,
                          append_assoc pre (c ∷ []) (stored_line k bs old),
                        )
                        at rest.ends
                      ∙ ap (λ m. result m (pre ++ c ∷ stored_line k bs old) rest.rest)
                          (omega arith));
              smaller = rw more (omega (arith, rest.smaller));
              behind = λ h.
                  let (f, e) = rest.behind (flows h) in
                  (f, e ∙ sym (behind_line_more k c bs o old not_cr not_nl));
            }
      ]
    ]

get_line_loop-IsLine :
    (fuel bufsize ch k : ℕ) (bs pre old : List ℕ) (s : List Arrival)
    → size s < fuel
    → readable s ≡ bs
    → (ch == newline) ≡ false
    → length pre + k + 1 ≡ bufsize
    → k < length old
    → IsLine k bs pre old s (get_line_loop fuel bufsize (length pre) ch (pre ++ old) s)
unfolding get_line_loop on_read
get_line_loop-IsLine zero bufsize ch k bs pre old s f r n e h = absurd (omega arith)
get_line_loop-IsLine (suc fuel) bufsize ch zero bs pre old s f r n e h = rw full (record {
  rest = s;
  ends = ap (λ m. result m (pre ++ old) s) (omega arith);
  smaller = omega arith;
  behind = λ h. (h, r);
})
  where
    full : (ltb (length pre) (bufsize - 1) && not (ch == newline)) ≡ false
    full = ground arith
get_line_loop-IsLine (suc fuel) bufsize ch (suc k) bs pre [] s f r n e h = absurd (omega arith)
get_line_loop-IsLine (suc fuel) bufsize ch (suc k) [] pre (o ∷ old) s f r n e h =
    rw (room_left bufsize ch k (length pre) n e) (elim none_read [
      | inl at_end ↦
          rw at_end
            (nothing (read 1 s).1 (size-read_le s) (λ h. (read-Flows s h, read_at_end s h r)))
      | inr (x, failing) ↦
          rw failing
            (nothing (read 1 s).1 (size-read_le s) (λ h. (read-Flows s h, read_at_end s h r)))
    ])
  where
    none_read : OneByte [] s (read 1 s)
    none_read = rw r at (read-OneByte s)

    nothing :
        (rest : List Arrival)
        → size rest ≤ size s
        → (Flows s → Flows rest × (readable rest ≡ []))
        → IsLine (suc k) [] pre (o ∷ old) s (result (length pre) (pre ++ o ∷ old) rest)
    nothing rest le empty = record {
      rest = rest;
      ends = ap (λ m. result m (pre ++ o ∷ old) rest) (omega arith);
      smaller = omega arith;
      behind = empty;
    }
get_line_loop-IsLine (suc fuel) bufsize ch (suc k) (c ∷ bs) pre (o ∷ old) s f r n e h =
    let one : OneByte (c ∷ bs) s (read 1 s) = rw r at (read-OneByte s) in
    rw (room_left bufsize ch k (length pre) n e, one.0)
      (on_byte fuel bufsize ch k c bs pre o old s (read 1 s).1 one.2 (read-Flows s) one.1
        (λ is_cr.
          get_line_loop-IsLine fuel bufsize c (suc k) bs pre (o ∷ old) (read 1 s).1 (omega arith)
            one.1 (ground arith) e h)
        (λ other.
          get_line_loop-IsLine fuel bufsize c k bs (pre ++ c ∷ []) old (read 1 s).1 (omega arith)
            one.1 other (omega (arith, length-append pre (c ∷ []))) (omega arith)))

-- `get_line`, with what it leaves of a stream that flows.
pub get_line-IsLine :
    (bufsize : ℕ) (junk : List ℕ) (s : List Arrival)
    → 0 < bufsize
    → bufsize ≤ length junk
    → let l = take_line (bufsize - 1) (readable s) in
      (rest : List Arrival) × (get_line bufsize junk s
        ≡ some (record {
          count = length l;
          buf = stored_line (bufsize - 1) (readable s) junk;
          input = rest;
        }))
      × (size rest + length l ≤ size s)
      × (Flows s → Flows rest × (readable rest ≡ behind_line (bufsize - 1) (readable s)))
unfolding get_line
get_line-IsLine bufsize junk s pos fits =
    let r =
      get_line_loop-IsLine (suc (size s)) bufsize 0 (bufsize - 1) (readable s) [] junk s
        (omega arith) refl (ground arith) (omega arith) (omega arith) in
    (
      r.rest,
      r.ends
          ∙ ap (λ m. result m (stored_line (bufsize - 1) (readable s) junk) r.rest) (omega arith),
      r.smaller,
      r.behind,
    )

-- For a buffer of at least `bufsize > 0` bytes, `get_line` ends; it returns the length of the line,
-- which stands at the front of the buffer, with a null behind it exactly where a newline ended it.
-- The rest of the buffer is unchanged, and as many bytes as are returned are consumed.
pub get_line_lem :
    (bufsize : ℕ) (junk : List ℕ) (s : List Arrival)
    → 0 < bufsize
    → bufsize ≤ length junk
    → let l = take_line (bufsize - 1) (readable s) in
      (rest : List Arrival) × (get_line bufsize junk s
        ≡ some (record {
          count = length l;
          buf = stored_line (bufsize - 1) (readable s) junk;
          input = rest;
        }))
      × (size rest + length l ≤ size s)
get_line_lem bufsize junk s pos fits =
    let (rest, ends, smaller, behind) = get_line-IsLine bufsize junk s pos fits in
    (rest, ends, smaller)

take_line_bound : (k : ℕ) (bs : List ℕ) → length (take_line k bs) ≤ k
take_line_bound zero bs = omega arith
take_line_bound (suc k) [] = omega arith
take_line_bound (suc k) (c ∷ bs) = ground (arith, take_line_bound k bs, take_line_bound (suc k) bs)

-- Storing a line keeps the size of the buffer.
pub length-stored_line :
    (k : ℕ) (bs old : List ℕ) → k < length old → length (stored_line k bs old) ≡ length old
length-stored_line k bs old h =
    let l = take_line k bs in
    elim (Bool-cases (terminated k bs)) [
      | inl at_nl ↦ rw at_nl (
          omega (
            arith,
            length-append l (0 ∷ drop (length l + 1) old),
            length-drop (length l + 1) old,
            take_line_bound k bs,
          ))
      | inr cut ↦ rw cut (
          omega (
            arith,
            length-append l (drop (length l) old),
            length-drop (length l) old,
            take_line_bound k bs,
          ))
    ]
