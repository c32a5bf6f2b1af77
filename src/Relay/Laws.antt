-- ===== src/Relay/Laws.antt =====
-- What a round of `str_cli` keeps.
use unix_network_programming.Base.{
  ℕ, ◌+◌, ◌≤◌, ◌<◌, ◌≡◌, refl, ap, sym, ◌∙◌, List, [], ◌∷◌, ◌++◌, append_assoc, Bool, true, false,
  ◌&&◌, if◌then◌else◌, take, length, length-take, take-append-drop, arith,
}
use unix_network_programming.Relay.{
  Buffer, room, is_empty, empty_by, ReadAnswer, got, read_blocks, read_fails, WriteAnswer, wrote,
  write_blocks, write_fails, Client, Outcome, continues, returns, exits, read_stdin, read_socket,
  write_stdout, write_socket,
}
use unix_network_programming.Relay.Buffers.{
  Fits, take-nonempty, fill-Fits, empty_by-Fits, empty_by-held,
}

-- The FIN is due: the input has ended, and all of it was sent.
abbrev pub fin_due : Client → Bool
fin_due c = c.stdineof && is_empty c.to.held

abbrev pub fins_due : Bool → ℕ
fins_due b = if b then 1 else 0

-- In both directions what was read is what was written and what the buffer holds; FIN was sent
-- once where it is due, and not before.
abbrev pub Holds : Client → Type 0
Holds c =
    (c.from_stdin ≡ c.to_socket ++ c.to.held)
    × (c.from_socket ≡ c.to_stdout ++ c.fr.held)
    × Fits c.to
    × Fits c.fr
    × (c.fins ≡ fins_due (fin_due c))

-- At a return the input has ended.
abbrev pub Keeps : Outcome → Type 0
Keeps (continues c) = Holds c
Keeps (returns c) = Holds c × (c.stdineof ≡ true)
Keeps exits = Unit

filled :
    (read written held bs : List ℕ) → read ≡ written ++ held → read ++ bs ≡ written ++ (held ++ bs)
filled read written held bs h = ap (λ xs. xs ++ bs) h ∙ append_assoc written held bs

emptied :
    (k : ℕ) (read written : List ℕ) (b : Buffer)
    → read ≡ written ++ b.held
    → read ≡ (written ++ take k b.held) ++ (empty_by k b).held
emptied k read written b h =
    h
    ∙ ap (λ xs. written ++ xs)
        (sym (take-append-drop k b.held) ∙ ap (λ xs. take k b.held ++ xs) (sym (empty_by-held k b)))
    ∙ sym (append_assoc written (take k b.held) (empty_by k b).held)

take-room : (b : Buffer) (bs : List ℕ) → length (take (room b) bs) ≤ room b
take-room b bs = omega (arith, length-take (room b) bs)

fin_eof :
    (s z : Bool) (n : ℕ)
    → n ≡ fins_due (s && z)
    → s ≡ false
    → (if z then n + 1 else n) ≡ fins_due (true && z)
fin_eof s z n h e = ground arith

fin_fill : (s z z' : Bool) (n : ℕ) → n ≡ fins_due (s && z) → s ≡ false → n ≡ fins_due (s && z')
fin_fill s z z' n h e = ground arith

fin_sent :
    (s z z' : Bool) (n : ℕ)
    → n ≡ fins_due (s && z)
    → z ≡ false
    → (if z' && s then n + 1 else n) ≡ fins_due (s && z')
fin_sent s z z' n h e = ground arith

pub eof_Keeps :
    (b : Bool) (c : Client) → Holds c → c.stdineof ≡ b → Keeps (if b then returns c else exits)
eof_Keeps true c h e = (h, e)
eof_Keeps false c h e = tt

pub read_stdin-Keeps :
    (a : ReadAnswer) (c : Client) (w : Bool) (next : Client → Bool → Outcome)
    → Holds c
    → c.stdineof ≡ false
    → 0 < room c.to
    → ((d : Client) (v : Bool) → Holds d → d.fr ≡ c.fr → Keeps (next d v))
    → Keeps (read_stdin a c w next)
unfolding read_stdin
read_stdin-Keeps read_fails c w next h e r k = tt
read_stdin-Keeps read_blocks c w next h e r k = k c w h refl
read_stdin-Keeps (got []) c w next (i, o, f, g, n) e r k =
    k _ w (i, o, f, g, fin_eof c.stdineof (is_empty c.to.held) c.fins n e) refl
read_stdin-Keeps (got (b ∷ bs)) c w next (i, o, f, g, n) e r k =
    let new = take (room c.to) (b ∷ bs) in
    let full = take-nonempty (room c.to) b bs r in
    k _ true
      (
        filled c.from_stdin c.to_socket c.to.held new i,
        o,
        fill-Fits c.to new full (take-room c.to (b ∷ bs)) f,
        g,
        fin_fill c.stdineof (is_empty c.to.held) (is_empty (c.to.held ++ new)) c.fins n e,
      )
      refl

pub read_socket-Keeps :
    (a : ReadAnswer) (c : Client) (w : Bool) (next : Client → Bool → Outcome)
    → Holds c
    → 0 < room c.fr
    → ((d : Client) (v : Bool) → Holds d → Keeps (next d v))
    → Keeps (read_socket a c w next)
unfolding read_socket
read_socket-Keeps read_fails c w next h r k = tt
read_socket-Keeps read_blocks c w next h r k = k c w h
read_socket-Keeps (got []) c w next h r k = eof_Keeps c.stdineof c h refl
read_socket-Keeps (got (b ∷ bs)) c w next (i, o, f, g, n) r k =
    let new = take (room c.fr) (b ∷ bs) in
    k _ true (
      i,
      filled c.from_socket c.to_stdout c.fr.held new o,
      f,
      fill-Fits c.fr new (take-nonempty (room c.fr) b bs r) (take-room c.fr (b ∷ bs)) g,
      n,
    )

pub write_stdout-Keeps :
    (a : WriteAnswer) (c : Client) (next : Client → Outcome)
    → Holds c
    → ((d : Client) → Holds d → Keeps (next d))
    → Keeps (write_stdout a c next)
unfolding write_stdout
write_stdout-Keeps write_fails c next h k = tt
write_stdout-Keeps write_blocks c next h k = k c h
write_stdout-Keeps (wrote m) c next (i, o, f, g, n) k =
    k _ (i, emptied m c.from_socket c.to_stdout c.fr o, f, empty_by-Fits m c.fr g, n)

pub write_socket-Keeps :
    (a : WriteAnswer) (c : Client) → Holds c → is_empty c.to.held ≡ false → Keeps (write_socket a c)
unfolding write_socket
write_socket-Keeps write_fails c h z = tt
write_socket-Keeps write_blocks c h z = h
write_socket-Keeps (wrote m) c (i, o, f, g, n) z = (
  emptied m c.from_stdin c.to_socket c.to i,
  o,
  empty_by-Fits m c.to f,
  g,
  fin_sent c.stdineof (is_empty c.to.held) (is_empty (empty_by m c.to).held) c.fins n z,
)
