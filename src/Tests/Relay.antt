-- ===== src/Tests/Relay.antt =====
-- A line through nonblock/strclinonb.c and back.
use unix_network_programming.Base.{ℕ, ◌≡◌, refl, List, [], ◌∷◌, true, codes}
use unix_network_programming.Relay.{
  ReadAnswer, got, read_blocks, WriteAnswer, wrote, write_blocks, Answers, Client, Outcome,
  continues, returns, exits, initial, round, str_cli,
}
use unix_network_programming.Relay.Laws.{Keeps}
use unix_network_programming.Relay.Rounds.{str_cli-Keeps}

-- Everything is ready.
abbrev all_ready : ReadAnswer → ReadAnswer → WriteAnswer → WriteAnswer → Answers
all_ready stdin socket out to = record {
  stdin_ready = true;
  socket_readable = true;
  socket_writable = true;
  stdout_ready = true;
  stdin_read = stdin;
  socket_read = socket;
  stdout_write = out;
  socket_write = to;
}

-- The input is sent in two writes, and ends; its echo is half written when the socket ends.
abbrev session : List Answers
session =
    all_ready (got (codes "hey")) read_blocks write_blocks (wrote 2)
    ∷ all_ready (got []) (got (codes "hey")) (wrote 1) (wrote 1)
    ∷ all_ready read_blocks (got []) write_blocks write_blocks
    ∷ []

abbrev written : Outcome → List ℕ × List ℕ × ℕ
written (continues c) = (c.to_socket, c.to_stdout, c.fins)
written (returns c) = (c.to_socket, c.to_stdout, c.fins)
written exits = ([], [], 0)

session_lem : written (str_cli session) ≡ (codes "hey", codes "h", 1)
unfolding str_cli round
session_lem = refl

str_cli-Keeps_example : Keeps (str_cli session)
str_cli-Keeps_example = str_cli-Keeps session

abbrev half_written : Client
half_written = record initial {
  fr = record { start = 1; held = codes "ey" };
  stdineof = true;
  from_socket = codes "hey";
  to_stdout = codes "h";
  fins = 1;
}
