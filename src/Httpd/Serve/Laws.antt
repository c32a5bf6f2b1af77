-- ===== src/Httpd/Serve/Laws.antt =====
-- What of a file reaches the client.
use unix_network_programming.Base.{
  ℕ, zero, suc, ◌+◌, ◌<◌, ◌≡◌, ◌≢◌, refl, sym, ap, subst, ◌∙◌, List, [], ◌∷◌, ◌++◌, append_assoc,
  append-nil, Option, none, some, true, false, if◌then◌else◌, then_branch, else_branch, ◌==◌, arith,
  Bool-cases, Option-cases, ◌⊎◌, inl, inr, length, length-append, All, flatten,
}
use unix_network_programming.CString.{c_string, c_string_self}
use unix_network_programming.Httpd.{Client, Ending, at_eof, breaks, File, Files, send, not_found}
use unix_network_programming.Httpd.Serve.{
  newline, content_size, Gets, fgets, copy_loop, copy_file, main_header, serve_file,
}

abbrev pub Plain : List ℕ → Type 0
Plain = All (λ b. b ≢ 0)

abbrev pub NoNewline : List ℕ → Type 0
NoNewline = All (λ b. b ≢ newline)

-- How many bytes fgets has taken of a line when the file ends: the count starts again behind a newline,
-- and when the buffer is full. `n` is the count so far.
abbrev pub unfinished : ℕ → List ℕ → ℕ
unfinished n [] = n
unfinished n (b ∷ bs) =
    let anew = unfinished 0 bs in
    let more = unfinished (n + 1) bs in
    if b == newline then anew else if n + 1 == content_size then anew else more

-- One `fgets` splits the file; at the end of the file it took a short rest without a newline.
record IsSplit (k : ℕ) (bs : List ℕ) (g : Gets) : Type 0 where
  whole : g.part ++ g.rest ≡ bs
  plain : Plain bs → Plain g.part × Plain g.rest
  short : g.at_end ≡ true → (length g.part < k) × NoNewline g.part × (g.rest ≡ [])
  progress : g.at_end ≡ false → 0 < k → 0 < length g.part

fgets-IsSplit : (k : ℕ) (bs : List ℕ) → IsSplit k bs (fgets k at_eof bs)
unfolding fgets
fgets-IsSplit zero bs = record {
  whole = refl;
  plain = λ p. (tt, p);
  short = λ e. cc;
  progress = λ e h. absurd (omega arith);
}
fgets-IsSplit (suc k) [] = record {
  whole = refl;
  plain = λ p. (tt, p);
  short = λ e. (omega arith, tt, refl);
  progress = λ e h. cc;
}
fgets-IsSplit (suc k) (b ∷ bs) =
    let ih = fgets-IsSplit k bs in
    elim (Bool-cases (b == newline)) [
      | inl last ↦ rw last (record {
        whole = refl;
        plain = λ p. ((p.0, tt), p.1);
        short = λ e. cc;
        progress = λ e h. omega arith;
      })
      | inr more ↦ rw more (record {
        whole = ap (λ t. b ∷ t) ih.whole;
        plain = λ p. ((p.0, (ih.plain p.1).0), (ih.plain p.1).1);
        short =
            λ e. (ground (arith, (ih.short e).0), (ground arith, (ih.short e).1), (ih.short e).2);
        progress = λ e h. omega arith;
      })
    ]

-- What the count is behind one `fgets` with room for `k` of the `content_size` bytes.
abbrev Counted : ℕ → List ℕ → Gets → Type 0
Counted n bs g =
    (g.at_end ≡ true → unfinished n bs ≡ n + length g.part)
    × (g.at_end ≡ false → unfinished n bs ≡ unfinished 0 g.rest)

fgets-Counted :
    (k n : ℕ) (bs : List ℕ) → n + suc k ≡ content_size → Counted n bs (fgets (suc k) at_eof bs)
unfolding fgets
fgets-Counted k n [] h = ((λ e. omega arith), (λ e. cc))
fgets-Counted zero n (b ∷ bs) h = elim (Bool-cases (b == newline)) [
  | inl last ↦ rw last ((λ e. cc), (λ e. refl))
  | inr more ↦
      rw more ((λ e. cc), (λ e. then_branch {b = n + 1 == content_size} _ _ (ground arith)))
]
fgets-Counted (suc k) n (b ∷ bs) h = elim (Bool-cases (b == newline)) [
  | inl last ↦ rw last ((λ e. cc), (λ e. refl))
  | inr more ↦
      let (i, j) = fgets-Counted k (n + 1) bs (omega arith) in
      let not_full =
        else_branch {b = n + 1 == content_size} (unfinished 0 bs) (unfinished (n + 1) bs)
          (ground arith) in
      rw more ((λ e. not_full ∙ i e ∙ omega arith), (λ e. not_full ∙ j e))
]

-- A copy of the file `bs` to the client `c`: what is written, and what is lost at the end, which is
-- what fgets holds when it meets the end of the file.
pub record IsCopy (bs : List ℕ) (c : Client) (run : Option Client) : Type 0 where
  pub client : Client
  pub writes : List (List ℕ)
  pub lost : List ℕ
  pub ends : run ≡ some client
  pub sent : client.output ≡ c.output ++ writes
  pub input : client.input ≡ c.input
  pub whole : flatten writes ++ lost ≡ bs
  pub lost_line : NoNewline lost
  pub lost_size : length lost ≡ unfinished 0 bs

copy_loop-IsCopy :
    (fuel : ℕ) (bs : List ℕ) (c : Client)
    → length bs + 1 < fuel
    → Plain bs
    → IsCopy bs c (copy_loop fuel at_eof (fgets content_size at_eof bs) c)
unfolding copy_loop
copy_loop-IsCopy zero bs c h p = absurd (omega arith)
copy_loop-IsCopy (suc fuel) bs c h p =
    let g = fgets content_size at_eof bs in
    let split = fgets-IsSplit content_size bs in
    let (at_last, before) = fgets-Counted 1022 0 bs (omega arith) in
    let at_rest : g.part ++ g.rest ≡ bs = split.whole in
    elim (Bool-cases g.at_end) [
      | inl done ↦
          let (short, no_newline, empty) = split.short done in
          rw done (record {
            client = c;
            writes = [];
            lost = g.part;
            ends = refl;
            sent = sym (append-nil c.output);
            input = refl;
            whole = sym (append-nil g.part) ∙ ap (λ t. g.part ++ t) (sym empty) ∙ at_rest;
            lost_line = no_newline;
            lost_size = sym (at_last done ∙ omega arith);
          })
      | inr more ↦
          let (part_plain, rest_plain) = split.plain p in
          let rest =
            copy_loop-IsCopy fuel g.rest (send (c_string g.part) c)
              (omega (
                arith,
                split.progress more (omega arith),
                length-append g.part g.rest,
                ap length at_rest,
              ))
              rest_plain in
          rw more (record {
            client = rest.client;
            writes = g.part ∷ rest.writes;
            lost = rest.lost;
            ends = rest.ends;
            sent =
                rest.sent
                ∙ append_assoc c.output (c_string g.part ∷ []) rest.writes
                ∙ ap (λ t. c.output ++ t ∷ rest.writes) (c_string_self g.part part_plain);
            input = rest.input;
            whole =
                append_assoc g.part (flatten rest.writes) rest.lost
                ∙ ap (λ t. g.part ++ t) rest.whole
                ∙ at_rest;
            lost_line = rest.lost_line;
            lost_size = rest.lost_size ∙ sym (before more);
          })
    ]

-- For a file that can be read to its end and holds no nulls, the program ends; behind the header it
-- writes the file, less what the last `fgets` took before it met the end of the file: the bytes behind
-- the last newline, less a multiple of the 1023 bytes that the buffer holds.
pub serve_file-IsCopy :
    (fs : Files) (filename : List ℕ) (c : Client) {file : List ℕ}
    → fs.fopen filename ≡ some (record { bytes = file; ending = at_eof })
    → Plain file
    → IsCopy file (send main_header c) (serve_file fs filename c)
unfolding serve_file
serve_file-IsCopy fs filename c {file} opened plain =
    rw opened (copy_loop-IsCopy (length file + 2) file (send main_header c) (omega arith) plain)

NoNewline-last : (bs : List ℕ) → NoNewline (bs ++ newline ∷ []) → ⊥
NoNewline-last [] h = h.0 refl
NoNewline-last (b ∷ bs) h = NoNewline-last bs h.1

lost_nothing :
    (sent lost bs : List ℕ) → sent ++ lost ≡ bs ++ newline ∷ [] → NoNewline lost → lost ≡ []
lost_nothing [] lost bs e h = absurd (NoNewline-last bs (subst NoNewline e h))
lost_nothing (b ∷ sent) [] bs e h = refl
lost_nothing (b ∷ sent) (l ∷ lost) [] e h =
    absurd (omega (arith, ap length e, length-append sent (l ∷ lost)))
lost_nothing (b ∷ sent) (l ∷ lost) (c ∷ bs) e h = lost_nothing sent (l ∷ lost) bs (cc) h

-- Of a file without nulls that can be read and ends in a newline nothing is lost.
pub serve_file_whole :
    (fs : Files) (filename : List ℕ) (c : Client) (lines : List ℕ)
    → fs.fopen filename ≡ some (record { bytes = lines ++ newline ∷ []; ending = at_eof })
    → Plain (lines ++ newline ∷ [])
    → (c' : Client) × (writes : List (List ℕ)) × (serve_file fs filename c ≡ some c')
      × (c'.output ≡ c.output ++ main_header ∷ writes)
      × (flatten writes ≡ lines ++ newline ∷ [])
serve_file_whole fs filename c lines opened plain =
    let r = serve_file-IsCopy fs filename c opened plain in
    let none_lost = lost_nothing (flatten r.writes) r.lost lines r.whole r.lost_line in
    (
      r.client,
      r.writes,
      r.ends,
      r.sent ∙ append_assoc c.output (main_header ∷ []) r.writes,
      sym (append-nil (flatten r.writes))
          ∙ ap (λ t. flatten r.writes ++ t) (sym none_lost)
          ∙ r.whole,
    )

fgets_short :
    (k : ℕ) (bs : List ℕ) → NoNewline bs → length bs < k → (fgets k at_eof bs).at_end ≡ true
unfolding fgets
fgets_short zero bs n h = absurd (omega arith)
fgets_short (suc k) [] n h = refl
fgets_short (suc k) (b ∷ bs) n h = ground (arith, fgets_short k bs n.1 (omega arith))

-- Of a file that can be read, is shorter than the buffer and holds no newline nothing but the header is
-- sent.
pub serve_file_drops :
    (fs : Files) (filename : List ℕ) (c : Client) {file : List ℕ}
    → fs.fopen filename ≡ some (record { bytes = file; ending = at_eof })
    → NoNewline file
    → length file < content_size
    → serve_file fs filename c ≡ some (send main_header c)
unfolding serve_file copy_loop
serve_file_drops fs filename c {file} opened no_newline short =
    rw opened (one_round (length file) (fgets_short content_size file no_newline short))
  where
    one_round :
        (n : ℕ)
        → (fgets content_size at_eof file).at_end ≡ true
        → copy_loop (n + 2) at_eof (fgets content_size at_eof file) (send main_header c)
          ≡ some (send main_header c)
    one_round n done = let two : n + 2 ≡ suc (suc n) = omega arith in rw two (rw done)

-- The copy ends for every file that can be read, and reads nothing from the client.
copy_loop_ends :
    (fuel : ℕ) (bs : List ℕ) (c : Client)
    → length bs + 1 < fuel
    → (c' : Client) × (copy_loop fuel at_eof (fgets content_size at_eof bs) c ≡ some c')
      × (c'.input ≡ c.input)
unfolding copy_loop
copy_loop_ends zero bs c h = absurd (omega arith)
copy_loop_ends (suc fuel) bs c h =
    let g = fgets content_size at_eof bs in
    let split = fgets-IsSplit content_size bs in
    elim (Bool-cases g.at_end) [
      | inl done ↦ rw done (c, refl, refl)
      | inr more ↦ rw more (
          copy_loop_ends fuel g.rest (send (c_string g.part) c) (
            omega (
              arith,
              split.progress more (omega arith),
              length-append g.part g.rest,
              ap length split.whole,
            )))
    ]

-- A file system whose files can be read to their ends.
abbrev pub Reads : Files → Type 0
Reads fs = (path : List ℕ) (file : File) → fs.fopen path ≡ some file → file.ending ≡ at_eof

-- A path whose file breaks off with a read error.
abbrev pub Breaks : Files → Type 0
Breaks fs =
    (path : List ℕ) × (file : File) × (stale : List ℕ) × (fs.fopen path ≡ some file)
    × (file.ending ≡ breaks stale)

copy_file_ends :
    (file : File) (c : Client)
    → file.ending ≡ at_eof
    → (c' : Client) × (copy_file file c ≡ some c') × (c'.input ≡ c.input)
copy_file_ends file c h =
    subst
      (λ e.
        (c' : Client) × (copy_loop (length file.bytes + 2) e (fgets content_size e file.bytes)
            (send main_header c)
          ≡ some c')
        × (c'.input ≡ c.input))
      (sym h) (copy_loop_ends (length file.bytes + 2) file.bytes (send main_header c) (omega arith))

pub serve_file_ends :
    (fs : Files) (filename : List ℕ) (c : Client)
    → Reads fs
    → (c' : Client) × (serve_file fs filename c ≡ some c') × (c'.input ≡ c.input)
unfolding serve_file not_found
serve_file_ends fs filename c h = elim (Option-cases (fs.fopen filename)) [
  | inl closed ↦ rw closed (not_found c, refl, refl)
  | inr (file, opened) ↦ rw opened (copy_file_ends file c (h filename file opened))
]

ending-cases : (e : Ending) → (e ≡ at_eof) ⊎ ((stale : List ℕ) × (e ≡ breaks stale))
ending-cases at_eof = inl refl
ending-cases (breaks stale) = inr (stale, refl)

-- A file is served, or it breaks off.
pub serve_file_served :
    (fs : Files) (filename : List ℕ) (c : Client)
    → ((c' : Client) × (serve_file fs filename c ≡ some c')) ⊎ Breaks fs
unfolding serve_file not_found
serve_file_served fs filename c = elim (Option-cases (fs.fopen filename)) [
  | inl closed ↦ rw closed (inl (not_found c, refl))
  | inr (file, opened) ↦ elim (ending-cases file.ending) [
    | inl whole ↦ let (c', runs, same) = copy_file_ends file c whole in rw opened (inl (c', runs))
    | inr (stale, broken) ↦ inr (filename, file, stale, opened, broken)
  ]
]

-- Behind a read error the flag of the end is never set.
fgets_breaks : (k : ℕ) (stale bs : List ℕ) → (fgets k (breaks stale) bs).at_end ≡ false
unfolding fgets
fgets_breaks zero stale bs = refl
fgets_breaks (suc k) stale [] = refl
fgets_breaks (suc k) stale (b ∷ bs) = elim (Bool-cases (b == newline)) [
  | inl last ↦ rw last refl
  | inr more ↦ rw more (fgets_breaks k stale bs)
]

copy_loop_breaks :
    (fuel k : ℕ) (stale bs : List ℕ) (c : Client)
    → copy_loop fuel (breaks stale) (fgets k (breaks stale) bs) c ≡ none
unfolding copy_loop
copy_loop_breaks zero k stale bs c = refl
copy_loop_breaks (suc fuel) k stale bs c =
    let g = fgets k (breaks stale) bs in
    else_branch {b = g.at_end} _ _ (fgets_breaks k stale bs)
    ∙ copy_loop_breaks fuel content_size stale g.rest (send (c_string g.part) c)

-- The loop over a file that breaks off with a read error, such as a directory, never ends: no number
-- of rounds is enough.
pub copy_breaks :
    (fuel : ℕ) (stale bs : List ℕ) (c : Client)
    → copy_loop fuel (breaks stale) (fgets content_size (breaks stale) bs) c ≡ none
copy_breaks fuel stale bs c = copy_loop_breaks fuel content_size stale bs c
