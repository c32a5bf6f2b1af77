-- ===== src/ByteIo/Readline/Fetch.antt =====
-- The calls of `my_read`, one after the other.
use unix_network_programming.Base.{
  ℕ, ◌≡◌, refl, List, [], ◌∷◌, ◌++◌, ◌==◌, Bool-cases, inl, inr, take, drop, take-append-drop,
  append_assoc, ap, ◌∙◌, sym,
}
use unix_network_programming.ByteIo.{
  Arrival, chunk, failure, read, eintr, incoming, ending, Ending, eof, broken, put_back,
  incoming-put_back, ending-put_back,
}
use unix_network_programming.ByteIo.Readline.{
  ReadBuf, held, minus_one, Answer, byte, at_eof, sys_error, Fetched, refill, my_read,
}

abbrev pub buffered : ReadBuf → List ℕ
buffered (held bs) = bs
buffered minus_one = []

-- The bytes still to be handed out.
abbrev pub content : ReadBuf → List Arrival → List ℕ
content buf s = buffered buf ++ incoming s

abbrev pub last_answer : Ending → Answer
last_answer eof = at_eof
last_answer (broken e) = sys_error e

-- `f` hands out the first of the bytes `bs`, or tells how the stream ends.
abbrev pub HandsOut : List ℕ → Ending → Fetched → Type 0
HandsOut [] end f = f.answer ≡ last_answer end
HandsOut (b ∷ bs) end f =
    (f.answer ≡ byte b) × (content f.buf f.stream ≡ bs) × (ending f.stream ≡ end)

content-put_back :
    (k : ℕ) (bs : List ℕ) (s : List Arrival)
    → content (held (take k bs)) (put_back (drop k bs) s) ≡ bs ++ incoming s
content-put_back k bs s = rw incoming-put_back (
    sym (append_assoc (take k bs) (drop k bs) (incoming s))
    ∙ ap (λ t. t ++ incoming s) (take-append-drop k bs))

refill-HandsOut : (s : List Arrival) → HandsOut (incoming s) (ending s) (refill s)
unfolding refill read
refill-HandsOut [] = refl
refill-HandsOut (failure e ∷ s) = elim (Bool-cases (e == eintr)) [
  | inl again ↦ rw again (refill-HandsOut s)
  | inr other ↦ rw other refl
]
refill-HandsOut (chunk [] ∷ s) = refl
refill-HandsOut (chunk (b ∷ bs) ∷ s) = (refl, content-put_back 4095 bs s, ending-put_back _ s)

pub my_read-HandsOut :
    (buf : ReadBuf) (s : List Arrival) → HandsOut (content buf s) (ending s) (my_read buf s)
unfolding my_read
my_read-HandsOut minus_one s = refill-HandsOut s
my_read-HandsOut (held []) s = refill-HandsOut s
my_read-HandsOut (held (b ∷ bs)) s = (refl, refl, refl)
