-- ===== src/Web/Laws.antt =====
-- The counters of Web are right in every round.
use unix_network_programming.Base.{
  ℕ, zero, suc, ◌+◌, ◌-◌, ◌≤◌, ◌<◌, ◌≡◌, refl, sym, List, [], ◌∷◌, Bool, true, false, ◌&&◌, ◌||◌,
  Option, none, some, ltb, leb, if◌then◌else◌, arith,
}
use unix_network_programming.Web.{
  Flags, f_none, f_connecting, f_reading, f_done, File, Open, State, initial, fd_clr, watch,
  Connecting, start_connect, start_first, on_connect, file_read, selected, Outcome, goes,
  nothing_found, exits, on_start, start_all, Answers, visit, and_visited, on_visited, visit_all,
  visited, round, rounds, after,
}
use unix_network_programming.Web.Counters.{
  unused_weight, open_weight, unused_files, open_files, IsSound, Started, start_first-Started,
  Connected, start_connect-Connected, Sound, if_Sound,
}

on_connect-Sound :
    (maxnconn : ℕ) (o : Option (File × Open)) (put : File → List File) (s : State)
    (next : State → Outcome)
    → s.conns.nconn < maxnconn
    → 0 < s.nlefttoconn
    → IsSound maxnconn s
    → Started s.files (some put)
    → Connected s.conns o
    → ((t : State) → IsSound maxnconn t → Sound maxnconn (next t))
    → Sound maxnconn (on_connect o put s next)
on_connect-Sound maxnconn none put s next l m i h c k = tt
on_connect-Sound maxnconn (some (f, o)) put s next l m (u, p, r, b) h (z, w, x, y) k =
    let (v, g) = h f z w in
    let t : State = record {
      files = put f;
      nlefttoconn = s.nlefttoconn - 1;
      conns = record o { nconn = o.nconn + 1 };
    } in
    k t (omega (arith, u, v), omega (arith, p, g, x), omega (arith, r, v, g, y), omega (arith, x))

on_start-Sound :
    (maxnconn : ℕ) (c : Connecting) (o : Option (File → List File)) (s : State)
    (next : State → Outcome)
    → s.conns.nconn < maxnconn
    → 0 < s.nlefttoconn
    → IsSound maxnconn s
    → Started s.files o
    → ((t : State) → IsSound maxnconn t → Sound maxnconn (next t))
    → Sound maxnconn (on_start c o s next)
on_start-Sound maxnconn c none s next l m (u, p, r, b) h k = absurd (omega (arith, u, h))
on_start-Sound maxnconn c (some put) s next l m i h k =
    on_connect-Sound maxnconn (start_connect c s.conns) put s next l m i h
      (start_connect-Connected c s.conns) k

start_all-Sound :
    (maxnconn left : ℕ) (cs : ℕ → Connecting) (s : State) (next : State → Outcome)
    → IsSound maxnconn s
    → ((t : State) → IsSound maxnconn t → Sound maxnconn (next t))
    → Sound maxnconn (start_all maxnconn left cs s next)
unfolding start_all
start_all-Sound maxnconn zero cs s next h k = k s h
start_all-Sound maxnconn (suc left) cs s next h k =
    if_Sound maxnconn (ltb s.conns.nconn maxnconn && ltb 0 s.nlefttoconn) _ (next s)
      (λ b.
        on_start-Sound maxnconn (cs left) (start_first s.files) s _ (ground arith) (ground arith) h
          (start_first-Started s.files) (λ t g. start_all-Sound maxnconn left cs t next g k))
      (λ b. k s h)

-- What the loop over the files leaves of the weights and the counters, where `n` connections are open
-- in the files that were visited before.
abbrev pub Visited : List File → ℕ → ℕ → Open → Option (List File × Open) → Type 0
Visited fs n left o none = Unit
Visited fs n left o (some (fs', o')) =
    (unused_files fs' ≡ unused_files fs)
    × (o'.nconn ≡ n + open_files fs')
    × (o'.nlefttoread ≡ left + (unused_files fs' + open_files fs'))

-- The same of one file.
abbrev pub VisitedOne : Flags → Open → Option (Flags × Open) → Type 0
VisitedOne f o none = Unit
VisitedOne f o (some (f', o')) =
    (unused_weight f' ≡ unused_weight f)
    × (o'.nconn + open_weight f ≡ o.nconn + open_weight f')
    × (o'.nlefttoread + open_weight f ≡ o.nlefttoread + open_weight f')

if_VisitedOne :
    (f : Flags) (o : Open) (b : Bool) (x y : Option (Flags × Open))
    → VisitedOne f o x
    → VisitedOne f o y
    → VisitedOne f o (if b then x else y)
if_VisitedOne f o true x y h k = h
if_VisitedOne f o false x y h k = k

visit-VisitedOne :
    (a : Answers) (f : Flags) (fd : ℕ) (o : Open)
    → open_weight f ≤ o.nconn
    → open_weight f ≤ o.nlefttoread
    → VisitedOne f o (visit a f fd o)
unfolding visit
visit-VisitedOne a f_none fd o h k = (refl, refl, refl)
visit-VisitedOne a f_done fd o h k = (refl, refl, refl)
visit-VisitedOne a f_connecting fd o h k =
    if_VisitedOne f_connecting o (a.rs fd || a.ws fd) _ (some (f_connecting, o))
      (if_VisitedOne f_connecting o (a.can_write fd)
        (some (f_reading, watch fd (record o { wset = fd_clr fd o.wset }))) none (refl, refl, refl)
        tt)
      (refl, refl, refl)
visit-VisitedOne a f_reading fd o h k =
    let if_one = if_VisitedOne f_reading o in
    if_one (a.rs fd) _ (some (f_reading, o))
      (if_one (a.can_read fd) _ none
        (if_one (a.eof fd) (file_read a fd o) (some (f_reading, o))
          (if_one (a.closes fd) _ none (refl, omega arith, omega arith) tt) (refl, refl, refl))
        tt)
      (refl, refl, refl)

and_visited-Visited :
    (f f' : File) (fs : List File) (n left : ℕ) (o o' : Open) (r : Option (List File × Open))
    → unused_weight f'.flags ≡ unused_weight f.flags
    → Visited fs
        (n + open_weight f'.flags)
        (left + (unused_weight f'.flags + open_weight f'.flags))
        o'
        r
    → Visited (f ∷ fs) n left o (and_visited f' r)
and_visited-Visited f f' fs n left o o' none u h = tt
and_visited-Visited f f' fs n left o o' (some (gs, q)) u (a, b, c) =
    (omega (arith, u, a), omega (arith, b), omega (arith, c))

on_visited-Visited :
    (f : File) (fs : List File) (n left : ℕ) (o : Open) (r : Option (Flags × Open))
    (rest : Open → Option (List File × Open))
    → o.nconn ≡ n + open_files (f ∷ fs)
    → o.nlefttoread ≡ left + (unused_files (f ∷ fs) + open_files (f ∷ fs))
    → VisitedOne f.flags o r
    → ((m more : ℕ) (q : Open)
        → q.nconn ≡ m + open_files fs
        → q.nlefttoread ≡ more + (unused_files fs + open_files fs)
        → Visited fs m more q (rest q))
    → Visited (f ∷ fs) n left o (on_visited r f.fd rest)
on_visited-Visited f fs n left o none rest h k v p = tt
on_visited-Visited f fs n left o (some (g, q)) rest h k (u, c, d) p =
    and_visited-Visited f (record { flags = g; fd = f.fd }) fs n left o q (rest q) u
      (p (n + open_weight g) (left + (unused_weight g + open_weight g)) q (omega (arith, h, c))
        (omega (arith, k, d, u)))

visit_all-Visited :
    (a : Answers) (fs : List File) (n left : ℕ) (o : Open)
    → o.nconn ≡ n + open_files fs
    → o.nlefttoread ≡ left + (unused_files fs + open_files fs)
    → Visited fs n left o (visit_all a fs o)
unfolding visit_all
visit_all-Visited a [] n left o h k = (refl, h, k)
visit_all-Visited a (f ∷ fs) n left o h k =
    on_visited-Visited f fs n left o (visit a f.flags f.fd o) (visit_all a fs) h k
      (visit-VisitedOne a f.flags f.fd o (omega (arith, h)) (omega (arith, k)))
      (λ m more q. visit_all-Visited a fs m more q)

-- No visit opens a connection.
abbrev pub AtMost : ℕ → Option (List File × Open) → Type 0
AtMost m none = Unit
AtMost m (some (fs, o)) = o.nconn ≤ m

abbrev pub AtMostOne : ℕ → Option (Flags × Open) → Type 0
AtMostOne m none = Unit
AtMostOne m (some (f, o)) = o.nconn ≤ m

if_AtMostOne :
    (m : ℕ) (b : Bool) (x y : Option (Flags × Open))
    → AtMostOne m x
    → AtMostOne m y
    → AtMostOne m (if b then x else y)
if_AtMostOne m true x y h k = h
if_AtMostOne m false x y h k = k

visit-AtMostOne :
    (m : ℕ) (a : Answers) (f : Flags) (fd : ℕ) (o : Open)
    → o.nconn ≤ m
    → AtMostOne m (visit a f fd o)
unfolding visit
visit-AtMostOne m a f_none fd o h = h
visit-AtMostOne m a f_done fd o h = h
visit-AtMostOne m a f_connecting fd o h =
    if_AtMostOne m (a.rs fd || a.ws fd) _ (some (f_connecting, o))
      (if_AtMostOne m (a.can_write fd)
        (some (f_reading, watch fd (record o { wset = fd_clr fd o.wset }))) none h tt)
      h
visit-AtMostOne m a f_reading fd o h =
    let if_one = if_AtMostOne m in
    if_one (a.rs fd) _ (some (f_reading, o))
      (if_one (a.can_read fd) _ none
        (if_one (a.eof fd) (file_read a fd o) (some (f_reading, o))
          (if_one (a.closes fd) _ none (omega arith) tt) h)
        tt)
      h

on_visited-AtMost :
    (m : ℕ) (r : Option (Flags × Open)) (fd : ℕ) (rest : Open → Option (List File × Open))
    → AtMostOne m r
    → ((q : Open) → q.nconn ≤ m → AtMost m (rest q))
    → AtMost m (on_visited r fd rest)
on_visited-AtMost m none fd rest h k = tt
on_visited-AtMost m (some (f, q)) fd rest h k =
    and_visited-AtMost (record { flags = f; fd = fd }) (rest q) (k q h)
  where
    and_visited-AtMost :
        (f : File) (r : Option (List File × Open)) → AtMost m r → AtMost m (and_visited f r)
    and_visited-AtMost f none h = tt
    and_visited-AtMost f (some (fs, o)) h = h

visit_all-AtMost :
    (m : ℕ) (a : Answers) (fs : List File) (o : Open) → o.nconn ≤ m → AtMost m (visit_all a fs o)
unfolding visit_all
visit_all-AtMost m a [] o h = h
visit_all-AtMost m a (f ∷ fs) o h =
    on_visited-AtMost m (visit a f.flags f.fd o) f.fd (visit_all a fs)
      (visit-AtMostOne m a f.flags f.fd o h) (visit_all-AtMost m a fs)

visited-Sound :
    (maxnconn : ℕ) (s : State) (r : Option (List File × Open))
    → s.nlefttoconn ≡ unused_files s.files
    → Visited s.files 0 0 s.conns r
    → AtMost maxnconn r
    → Sound maxnconn (visited r s)
visited-Sound maxnconn s none u v m = tt
visited-Sound maxnconn s (some (fs, o)) u (a, b, c) m =
    (omega (arith, u, a), omega (arith, b), omega (arith, c), m)

round-Sound :
    (maxnconn : ℕ) (cs : ℕ → Connecting) (a : Answers) (s : State)
    → IsSound maxnconn s
    → Sound maxnconn (round maxnconn cs a s)
unfolding round
round-Sound maxnconn cs a s h =
    start_all-Sound maxnconn s.nlefttoconn cs s (selected a) h (λ t (u, p, r, b).
      if_Sound maxnconn a.selects (visited (visit_all a t.files t.conns) t) exits
        (λ e.
          visited-Sound maxnconn t (visit_all a t.files t.conns) u
            (visit_all-Visited a t.files 0 0 t.conns (omega (arith, p)) (omega (arith, r)))
            (visit_all-AtMost maxnconn a t.files t.conns b))
        (λ e. tt))

after-Sound :
    (maxnconn : ℕ) (o : Outcome) (next : State → Outcome)
    → Sound maxnconn o
    → ((t : State) → IsSound maxnconn t → Sound maxnconn (next t))
    → Sound maxnconn (after o next)
after-Sound maxnconn nothing_found next h k = h
after-Sound maxnconn exits next h k = tt
after-Sound maxnconn (goes s) next h k = k s h

rounds-Sound :
    (maxnconn : ℕ) (answers : List ((ℕ → Connecting) × Answers)) (s : State)
    → IsSound maxnconn s
    → Sound maxnconn (rounds maxnconn answers s)
unfolding rounds
rounds-Sound maxnconn [] s h = h
rounds-Sound maxnconn ((cs, a) ∷ rest) s h =
    if_Sound maxnconn (leb s.conns.nlefttoread 0) (goes s) _ (λ b. h)
      (λ b.
        after-Sound maxnconn (round maxnconn cs a s) (rounds maxnconn rest)
          (round-Sound maxnconn cs a s h) (rounds-Sound maxnconn rest))

initial_files : (n : ℕ) → (unused_files (initial n).files ≡ n) × (open_files (initial n).files ≡ 0)
initial_files zero = (refl, refl)
initial_files (suc n) = let (a, b) = initial_files n in (omega (arith, a), omega (arith, b))

-- Whatever the system answers, every round goes on with sound counters, unless one of the calls whose
-- failure the program does not survive ends the process (Host_serv, Socket, Fcntl or connect in
-- start_connect, Writen, Select, Read, Close): main finds a file to start where one is left, has at most
-- maxnconn connections, and its three counters are those of the files that are not started, that have a
-- connection, and that are not read.
pub rounds-Sound-initial :
    (maxnconn nfiles : ℕ) (answers : List ((ℕ → Connecting) × Answers))
    → Sound maxnconn (rounds maxnconn answers (initial nfiles))
rounds-Sound-initial maxnconn nfiles answers =
    let (a, b) = initial_files nfiles in
    rounds-Sound maxnconn answers (initial nfiles) (sym a, sym b, omega (arith, a, b), omega arith)
