-- ===== src/ByteIo/Readn/Laws.antt =====
-- `readn` against the bytes of the stream.
use unix_network_programming.Base.{
  ℕ, zero, suc, ◌+◌, ◌-◌, ◌≤◌, ◌<◌, ◌≡◌, sym, ap, ◌∙◌, List, [], ◌∷◌, ◌++◌, append-nil,
  append_assoc, some, ◌==◌, if◌then◌else◌, leb, length, take, drop, arith, le→leb, gt→leb,
  length-append, take-append, take-append-drop, length-take, length-drop, Bool-cases, inl, inr,
}
use unix_network_programming.ByteIo.{
  Arrival, chunk, failure, read, eintr, size, incoming, ending, Ending, eof, broken, put_back,
  incoming-put_back, ending-put_back, size-put_back,
}
use unix_network_programming.ByteIo.Readn.{ReadnResult, returned, error, react, readn_loop, readn}

-- What a caller is promised: `left` bytes if the stream has them, else all bytes before the end of
-- file, else the failure.
unfoldable pub promised : ℕ → List ℕ → List ℕ → Ending → ReadnResult
promised left stored bs end =
    if leb left (length bs)
    then returned (stored ++ take left bs) (length (stored ++ take left bs))
    else elim end [ eof ↦ returned (stored ++ bs) (length (stored ++ bs)) | broken e ↦ error e ]

leb-length-append :
    (left : ℕ) (part bs : List ℕ)
    → length part ≤ left
    → leb left (length (part ++ bs)) ≡ leb (left - length part) (length bs)
leb-length-append left part bs h = ground (arith, length-append part bs)

promised_step :
    (left : ℕ) (stored part bs : List ℕ) (end : Ending)
    → length part ≤ left
    → promised left stored (part ++ bs) end ≡ promised (left - length part) (stored ++ part) bs end
unfolding promised
promised_step left stored part bs eof h = rw (
  leb-length-append left part bs h,
  take-append left part bs h,
  ← append_assoc stored part (take (left - length part) bs),
  ← append_assoc stored part bs,
)
promised_step left stored part bs (broken e) h = rw (
  leb-length-append left part bs h,
  take-append left part bs h,
  ← append_assoc stored part (take (left - length part) bs),
)

promised-zero :
    (stored bs : List ℕ) (end : Ending) → promised 0 stored bs end ≡ returned stored (length stored)
unfolding promised
promised-zero stored bs end = rw (le→leb 0 (length bs) (omega arith), append-nil)

promised-nil :
    (left : ℕ) (stored : List ℕ) → promised left stored [] eof ≡ returned stored (length stored)
unfolding promised
promised-nil zero stored = rw append-nil
promised-nil (suc left) stored = rw (gt→leb (suc left) 0 (omega arith), append-nil)

promised_broken :
    (left : ℕ) (stored : List ℕ) (e : ℕ) → promised (suc left) stored [] (broken e) ≡ error e
unfolding promised
promised_broken left stored e = rw (gt→leb (suc left) 0 (omega arith))

-- A chunk in front of a stream is a part that is stored, and a rest that stays.
promised-put_back :
    (left : ℕ) (stored bs : List ℕ) (s : List Arrival)
    → promised
        (left - length (take left bs))
        (stored ++ take left bs)
        (incoming (put_back (drop left bs) s))
        (ending (put_back (drop left bs) s))
      ≡ promised left stored (bs ++ incoming s) (ending s)
promised-put_back left stored bs s =
    rw (incoming-put_back, ending-put_back)
      (sym (
          promised_step left stored (take left bs) (drop left bs ++ incoming s) (ending s)
            (omega (arith, length-take left bs)))
        ∙ ap (λ t. promised left stored t (ending s))
            (sym (append_assoc (take left bs) (drop left bs) (incoming s))
              ∙ ap (λ t. t ++ incoming s) (take-append-drop left bs)))

-- Each round keeps what is promised; enough fuel is one more than the size of the stream.
readn_loop_lem :
    (fuel n left : ℕ) (stored : List ℕ) (s : List Arrival)
    → size s < fuel
    → left + length stored ≡ n
    → (rest : List Arrival) × (readn_loop fuel n left stored s
        ≡ some (promised left stored (incoming s) (ending s), rest))
unfolding readn_loop react read
readn_loop_lem zero n left stored s h e = absurd (omega arith)
readn_loop_lem (suc fuel) n zero stored s h e =
    (s, rw promised-zero (ap (λ k. some (returned stored k, s)) (omega arith)))
readn_loop_lem (suc fuel) n (suc left) stored [] h e =
    ([], rw promised-nil (ap (λ k. some (returned stored k, [])) (omega arith)))
readn_loop_lem (suc fuel) n (suc left) stored (failure x ∷ s) h e = elim (Bool-cases (x == eintr)) [
  | inl again ↦ rw again (readn_loop_lem fuel n (suc left) stored s (omega arith) e)
  | inr other ↦ (s, rw (other, promised_broken))
]
readn_loop_lem (suc fuel) n (suc left) stored (chunk [] ∷ s) h e =
    (s, rw promised-nil (ap (λ k. some (returned stored k, s)) (omega arith)))
readn_loop_lem (suc fuel) n (suc left) stored (chunk (b ∷ bs) ∷ s) h e =
    let part = b ∷ take left bs in
    let (rest, runs) =
      readn_loop_lem fuel n (suc left - length part) (stored ++ part) (put_back (drop left bs) s)
        (omega (arith, size-put_back (drop left bs) s, length-drop left bs))
        (omega (arith, length-append stored part, length-take left bs)) in
    (rest, runs ∙ ap (λ r. some (r, rest)) (promised-put_back (suc left) stored (b ∷ bs) s))

-- For every stream, `readn` ends, and returns what it promises.
pub readn-eq-promised :
    (n : ℕ) (s : List Arrival)
    → (rest : List Arrival) × (readn n s ≡ some (promised n [] (incoming s) (ending s), rest))
unfolding readn
readn-eq-promised n s = readn_loop_lem (suc (size s)) n n [] s (omega arith) (omega arith)
