-- ===== src/Web.antt =====
-- unpv1e3/nonblock/web.c, start_connect.c and write_get_cmd.c: a client that reads files over as many
-- connections at a time as it is told, in one process.
pub mod Counters
pub mod Laws
use unix_network_programming.Base.{
  ℕ, zero, suc, ◌+◌, ◌-◌, List, [], ◌∷◌, Bool, true, false, ◌&&◌, ◌||◌, Option, none, some, ◌==◌,
  ltb, leb, if◌then◌else◌, replicate,
}

-- f_flags: 0, F_CONNECTING, F_READING and F_DONE, of which only one is set at a time.
pub data Flags : Type 0 where
  f_none f_connecting f_reading f_done : Flags

pub record File : Type 0 where
  pub flags : Flags
  pub fd : ℕ

-- nconn, nlefttoread, rset, wset, maxfd + 1, and the descriptors that were closed.
pub record Open : Type 0 where
  pub nconn : ℕ
  pub nlefttoread : ℕ
  pub rset : ℕ → Bool
  pub wset : ℕ → Bool
  pub nfds : ℕ
  pub closed : List ℕ

pub record State : Type 0 where
  pub files : List File
  pub nlefttoconn : ℕ
  pub conns : Open

abbrev pub initial : ℕ → State
initial nfiles = record {
  files = replicate nfiles (record { flags = f_none; fd = 0 });
  nlefttoconn = nfiles;
  conns = record {
    nconn = 0;
    nlefttoread = nfiles;
    rset = λ fd. false;
    wset = λ fd. false;
    nfds = 0;
    closed = [];
  };
}

abbrev pub fd_set : ℕ → (ℕ → Bool) → ℕ → Bool
fd_set fd set other = if other == fd then true else set other

abbrev pub fd_clr : ℕ → (ℕ → Bool) → ℕ → Bool
fd_clr fd set other = if other == fd then false else set other

-- FD_SET on rset, and maxfd.
abbrev pub watch : ℕ → Open → Open
watch fd o = record o {
  rset = fd_set fd o.rset;
  nfds = if ltb o.nfds (fd + 1) then fd + 1 else o.nfds;
}

-- How start_connect ends: Host_serv, Socket, Fcntl or err_sys (connect fails with an error that is not
-- EINPROGRESS) ends the process; connect is in progress on this socket; or it is done, and Writen of
-- write_get_cmd succeeds or not.
pub data Connecting : Type 0 where
  cannot_connect : Connecting
  in_progress : ℕ → Connecting
  connected : ℕ → Bool → Connecting

-- start_connect: the file and what it changes; `none` is the end of the process.
abbrev pub start_connect : Connecting → Open → Option (File × Open)
start_connect cannot_connect o = none
start_connect (in_progress fd) o =
    some (record { flags = f_connecting; fd = fd }, record (watch fd o) { wset = fd_set fd o.wset })
start_connect (connected fd writes) o =
    if writes then some (record { flags = f_reading; fd = fd }, watch fd o) else none

-- The files with another in one place.
abbrev pub and_file : File → Option (File → List File) → Option (File → List File)
and_file f none = none
and_file f (some put) = some (λ new. f ∷ put new)

abbrev pub is_unused : Flags → Bool
is_unused f_none = true
is_unused f_connecting = false
is_unused f_reading = false
is_unused f_done = false

-- The place of the first file that is not started.
abbrev pub put_first : List File → File → List File
put_first fs new = new ∷ fs

pub start_first : List File → Option (File → List File)
start_first [] = none
start_first (f ∷ fs) =
    let rest = and_file f (start_first fs) in
    if is_unused f.flags then some (put_first fs) else rest

-- A round goes on; err_quit finds no file to start; or a wrapper that is called ends the process.
pub data Outcome : Type 0 where
  goes : State → Outcome
  nothing_found exits : Outcome

abbrev pub on_connect :
    Option (File × Open) → (File → List File) → State → (State → Outcome) → Outcome
on_connect none put s next = exits
on_connect (some (f, o)) put s next = next (record {
  files = put f;
  nlefttoconn = s.nlefttoconn - 1;
  conns = record o { nconn = o.nconn + 1 };
})

abbrev pub on_start : Connecting → Option (File → List File) → State → (State → Outcome) → Outcome
on_start c none s next = nothing_found
on_start c (some put) s next = on_connect (start_connect c s.conns) put s next

-- The inner loop, at most `left` times, and what follows it.
pub start_all : ℕ → ℕ → (ℕ → Connecting) → State → (State → Outcome) → Outcome
unfolding start_first
start_all maxnconn zero cs s next = next s
start_all maxnconn (suc left) cs s next =
    if ltb s.conns.nconn maxnconn && ltb 0 s.nlefttoconn
    then on_start (cs left) (start_first s.files) s (λ t. start_all maxnconn left cs t next)
    else next s

-- Whether Select succeeds, and its sets; whether Writen, Read and Close succeed for a socket, and
-- whether Read returns 0. A connect that has failed is reported and treated like one that has not.
pub record Answers : Type 0 where
  pub selects : Bool
  pub rs : ℕ → Bool
  pub ws : ℕ → Bool
  pub can_write : ℕ → Bool
  pub can_read : ℕ → Bool
  pub eof : ℕ → Bool
  pub closes : ℕ → Bool

-- F_DONE, where Close succeeds.
abbrev pub file_read : Answers → ℕ → Open → Option (Flags × Open)
file_read a fd o =
    if a.closes fd
    then some (
      f_done,
      record o {
        rset = fd_clr fd o.rset;
        nconn = o.nconn - 1;
        nlefttoread = o.nlefttoread - 1;
        closed = fd ∷ o.closed;
      },
    )
    else none

-- The body of the loop over the files: `none` is the end of the process in Writen, Read or Close.
pub visit : Answers → Flags → ℕ → Open → Option (Flags × Open)
visit a f_none fd o = some (f_none, o)
visit a f_done fd o = some (f_done, o)
visit a f_connecting fd o =
    if a.rs fd || a.ws fd
    then (if a.can_write fd
        then some (f_reading, watch fd (record o { wset = fd_clr fd o.wset }))
        else none)
    else some (f_connecting, o)
visit a f_reading fd o =
    if a.rs fd
    then (if a.can_read fd
        then (if a.eof fd then file_read a fd o else some (f_reading, o))
        else none)
    else some (f_reading, o)

abbrev pub and_visited : File → Option (List File × Open) → Option (List File × Open)
and_visited f none = none
and_visited f (some (fs, o)) = some (f ∷ fs, o)

abbrev pub on_visited :
    Option (Flags × Open) → ℕ → (Open → Option (List File × Open)) → Option (List File × Open)
on_visited none fd rest = none
on_visited (some (flags, o)) fd rest = and_visited (record { flags = flags; fd = fd }) (rest o)

pub visit_all : Answers → List File → Open → Option (List File × Open)
unfolding visit
visit_all a [] o = some ([], o)
visit_all a (f ∷ fs) o = on_visited (visit a f.flags f.fd o) f.fd (visit_all a fs)

abbrev pub visited : Option (List File × Open) → State → Outcome
visited none s = exits
visited (some (fs, o)) s = goes (record s { files = fs; conns = o })

-- Select, and the loop over the files.
abbrev pub selected : Answers → State → Outcome
unfolding visit_all
selected a t = if a.selects then visited (visit_all a t.files t.conns) t else exits

-- A round of the outer loop, where nlefttoread is not 0.
unfoldable pub round : ℕ → (ℕ → Connecting) → Answers → State → Outcome
unfolding start_all visit_all
round maxnconn cs a s = start_all maxnconn s.nlefttoconn cs s (λ t. selected a t)

abbrev pub after : Outcome → (State → Outcome) → Outcome
after nothing_found next = nothing_found
after exits next = exits
after (goes s) next = next s

-- As many rounds as there are answers, or until everything is read.
unfoldable pub rounds : ℕ → List ((ℕ → Connecting) × Answers) → State → Outcome
rounds maxnconn [] s = goes s
rounds maxnconn ((cs, a) ∷ rest) s =
    let again = after (round maxnconn cs a s) (rounds maxnconn rest) in
    if leb s.conns.nlefttoread 0 then goes s else again
