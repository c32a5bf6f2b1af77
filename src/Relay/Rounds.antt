-- ===== src/Relay/Rounds.antt =====
-- What the rounds of `str_cli` keep, and where they end.
use unix_network_programming.Base.{
  ℕ, ◌<◌, ◌≡◌, inl, refl, sym, subst, ◌∙◌, List, [], ◌∷◌, Bool, true, false, not, ◌&&◌, ◌||◌,
  if◌then◌else◌, ltb, arith, then_branch, else_branch,
}
use unix_network_programming.Relay.{
  room, is_empty, ReadAnswer, got, read_blocks, read_fails, Answers, Client, Outcome, continues,
  returns, exits, initial, wants_stdin, wants_socket, read_socket, write_socket, write_parts,
  socket_part, round, rounds, str_cli,
}
use unix_network_programming.Relay.Laws.{
  Holds, Keeps, read_stdin-Keeps, read_socket-Keeps, write_stdout-Keeps, write_socket-Keeps,
}

if_Keeps : (b : Bool) (x y : Outcome) → (b ≡ true → Keeps x) → Keeps y → Keeps (if b then x else y)
if_Keeps true x y h k = h refl
if_Keeps false x y h k = k

and_right : (a b : Bool) → (a && not b) ≡ true → b ≡ false
and_right a b h = ground arith

and_both : (a : Bool) (n : ℕ) → (a && ltb 0 n) ≡ true → 0 < n
and_both a n h = ground arith

wants_lem : (a s : Bool) (n : ℕ) → (a && (not s && ltb 0 n)) ≡ true → (s ≡ false) × (0 < n)
wants_lem a s n h = (ground arith, ground arith)

write_parts-Keeps :
    (a : Answers) (socket stdout : Bool) (c : Client)
    → Holds c
    → Keeps (write_parts a socket stdout c)
write_parts-Keeps a socket stdout c h =
    let last : (d : Client)
        → Holds d
        → Keeps (
            if socket && not (is_empty d.to.held)
            then write_socket a.socket_write d
            else continues d) =
      λ d g.
        if_Keeps (socket && not (is_empty d.to.held)) _ _
          (λ e. write_socket-Keeps a.socket_write d g (and_right socket (is_empty d.to.held) e))
          g in
    if_Keeps (stdout && not (is_empty c.fr.held)) _ _
      (λ e. write_stdout-Keeps a.stdout_write c _ h last) (last c h)

socket_part-Keeps :
    (a : Answers) (readable stdout socket : Bool) (c : Client) (w : Bool)
    → Holds c
    → (readable ≡ true → 0 < room c.fr)
    → Keeps (socket_part a readable stdout socket c w)
socket_part-Keeps a readable stdout socket c w h r =
    if_Keeps readable _ _
      (λ e.
        read_socket-Keeps a.socket_read c false _ h (r e)
          (λ d v g. write_parts-Keeps a (socket || w) (stdout || v) d g))
      (write_parts-Keeps a (socket || w) (stdout || false) c h)

round-Keeps : (a : Answers) (c : Client) → Holds c → Keeps (round a c)
unfolding round
round-Keeps a c h =
    let readable = a.socket_readable && wants_socket c in
    let socket = a.socket_writable && not (is_empty c.to.held) in
    let stdout = a.stdout_ready && not (is_empty c.fr.held) in
    if_Keeps (a.stdin_ready && wants_stdin c) _ _
      (λ e.
        let (s, r) = wants_lem a.stdin_ready c.stdineof (room c.to) e in
        read_stdin-Keeps a.stdin_read c false _ h s r (λ d v g f.
          socket_part-Keeps a readable stdout socket d v g
            (λ q. subst (λ b. 0 < room b) (sym f) (and_both a.socket_readable (room c.fr) q))))
      (socket_part-Keeps a readable stdout socket c false h
        (λ q. and_both a.socket_readable (room c.fr) q))

after-Keeps : (answers : List Answers) (o : Outcome) → Keeps o → Keeps (rounds answers o)
unfolding rounds
after-Keeps [] o h = h
after-Keeps (a ∷ answers) (continues c) h = after-Keeps answers (round a c) (round-Keeps a c h)
after-Keeps (a ∷ answers) (returns c) h = h
after-Keeps (a ∷ answers) exits h = tt

initial-Holds : Holds initial
initial-Holds = (refl, refl, (omega arith, inl refl), (omega arith, inl refl), refl)

-- Whatever Select, read and write answer: what the socket was given is what standard input gave,
-- less what the buffer holds, in order, and the same for the other direction; both buffers keep
-- their bounds; FIN was sent once where the input has ended and all of it was sent, and not before;
-- and `str_cli` returns only behind the end of the input.
pub str_cli-Keeps : (answers : List Answers) → Keeps (str_cli answers)
unfolding str_cli
str_cli-Keeps answers = after-Keeps answers (continues initial) initial-Holds

eof_lem :
    (x : ReadAnswer) (c : Client) (w : Bool) (next : Client → Bool → Outcome)
    → x ≡ got []
    → c.stdineof ≡ true
    → read_socket x c w next ≡ returns c
unfolding read_socket
eof_lem (got []) c w next g e = then_branch {b = c.stdineof} _ _ e
eof_lem (got (b ∷ bs)) c w next g e = ground arith
eof_lem read_blocks c w next g e = ground arith
eof_lem read_fails c w next g e = ground arith

no_stdin : (a s : Bool) (n : ℕ) → s ≡ true → (a && (not s && ltb 0 n)) ≡ false
no_stdin a s n h = ground arith

readable_now : (a : Bool) (n : ℕ) → a ≡ true → 0 < n → (a && ltb 0 n) ≡ true
readable_now a n h k = ground arith

-- Where the input has ended and the socket ends, `str_cli` returns at once: what the buffer still
-- holds for standard output is not written.
pub round_returns :
    (a : Answers) (c : Client)
    → c.stdineof ≡ true
    → a.socket_readable ≡ true
    → 0 < room c.fr
    → a.socket_read ≡ got []
    → round a c ≡ returns c
unfolding round
round_returns a c e r h g =
    else_branch {b = a.stdin_ready && wants_stdin c} _ _
      (no_stdin a.stdin_ready c.stdineof (room c.to) e)
    ∙ (then_branch {b = a.socket_readable && wants_socket c} _ _
          (readable_now a.socket_readable (room c.fr) r h)
        ∙ eof_lem a.socket_read c false _ g e)
