-- ===== src/Web/Counters.antt =====
-- The counters of Web, and what a start does to them.
use unix_network_programming.Base.{
  ℕ, ◌+◌, ◌≤◌, ◌≡◌, refl, List, [], ◌∷◌, Bool, true, false, Option, none, some, if◌then◌else◌,
  arith,
}
use unix_network_programming.Web.{
  Flags, f_none, f_connecting, f_reading, f_done, File, Open, State, Connecting, cannot_connect,
  in_progress, connected, start_connect, put_first, and_file, is_unused, start_first, Outcome, goes,
  nothing_found, exits,
}

-- 1 for a file that is not started, that has a connection, and that is not read.
abbrev pub unused_weight : Flags → ℕ
unused_weight f_none = 1
unused_weight f_connecting = 0
unused_weight f_reading = 0
unused_weight f_done = 0

abbrev pub open_weight : Flags → ℕ
open_weight f_none = 0
open_weight f_connecting = 1
open_weight f_reading = 1
open_weight f_done = 0

abbrev pub unused_files : List File → ℕ
unused_files [] = 0
unused_files (f ∷ fs) = unused_weight f.flags + unused_files fs

abbrev pub open_files : List File → ℕ
open_files [] = 0
open_files (f ∷ fs) = open_weight f.flags + open_files fs

-- The counters: of the files that are not started, of the connections, which are at most as many as
-- was asked for, and of the files that are not read.
abbrev pub IsSound : ℕ → State → Type 0
IsSound maxnconn s =
    (s.nlefttoconn ≡ unused_files s.files)
    × (s.conns.nconn ≡ open_files s.files)
    × (s.conns.nlefttoread ≡ unused_files s.files + open_files s.files)
    × (s.conns.nconn ≤ maxnconn)

-- With a file that has a connection in its place one more file is open, and one less is not started.
abbrev pub Started : List File → Option (File → List File) → Type 0
Started fs none = unused_files fs ≡ 0
Started fs (some put) =
    (new : File)
    → unused_weight new.flags ≡ 0
    → open_weight new.flags ≡ 1
    → (unused_files fs ≡ unused_files (put new) + 1) × (open_files (put new) ≡ open_files fs + 1)

if_Started :
    (fs : List File) (b : Bool) (x y : Option (File → List File))
    → (b ≡ true → Started fs x)
    → (b ≡ false → Started fs y)
    → Started fs (if b then x else y)
if_Started fs true x y h k = h refl
if_Started fs false x y h k = k refl

unused_flags : (f : Flags) → is_unused f ≡ true → (unused_weight f ≡ 1) × (open_weight f ≡ 0)
unused_flags f_none h = (refl, refl)
unused_flags f_connecting h = ground arith
unused_flags f_reading h = ground arith
unused_flags f_done h = ground arith

used_flags : (f : Flags) → is_unused f ≡ false → unused_weight f ≡ 0
used_flags f_none h = ground arith
used_flags f_connecting h = refl
used_flags f_reading h = refl
used_flags f_done h = refl

and_file-Started :
    (f : File) (fs : List File) (o : Option (File → List File))
    → is_unused f.flags ≡ false
    → Started fs o
    → Started (f ∷ fs) (and_file f o)
and_file-Started f fs none u h = let w = used_flags f.flags u in omega (arith, w, h)
and_file-Started f fs (some put) u h =
    λ new z o. let (a, b) = h new z o in (omega (arith, a), omega (arith, b))

pub start_first-Started : (fs : List File) → Started fs (start_first fs)
unfolding start_first
start_first-Started [] = refl
start_first-Started (f ∷ fs) =
    if_Started (f ∷ fs) (is_unused f.flags) (some (put_first fs)) (and_file f (start_first fs))
      (λ u new z o.
        let (w, v) = unused_flags f.flags u in (omega (arith, w, z), omega (arith, v, o)))
      (λ u. and_file-Started f fs (start_first fs) u (start_first-Started fs))

-- What start_connect leaves: a file with a connection, and the counters as they were.
abbrev pub Connected : Open → Option (File × Open) → Type 0
Connected o none = Unit
Connected o (some (f, o')) =
    (unused_weight f.flags ≡ 0)
    × (open_weight f.flags ≡ 1)
    × (o'.nconn ≡ o.nconn)
    × (o'.nlefttoread ≡ o.nlefttoread)

pub start_connect-Connected : (c : Connecting) (o : Open) → Connected o (start_connect c o)
start_connect-Connected cannot_connect o = tt
start_connect-Connected (in_progress fd) o = (refl, refl, refl, refl)
start_connect-Connected (connected fd true) o = (refl, refl, refl, refl)
start_connect-Connected (connected fd false) o = tt

abbrev pub Sound : ℕ → Outcome → Type 0
Sound maxnconn (goes s) = IsSound maxnconn s
Sound maxnconn nothing_found = ⊥
Sound maxnconn exits = Unit

pub if_Sound :
    (maxnconn : ℕ) (b : Bool) (x y : Outcome)
    → (b ≡ true → Sound maxnconn x)
    → (b ≡ false → Sound maxnconn y)
    → Sound maxnconn (if b then x else y)
if_Sound maxnconn true x y h k = h refl
if_Sound maxnconn false x y h k = k refl
