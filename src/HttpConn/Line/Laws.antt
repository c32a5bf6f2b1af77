-- ===== src/HttpConn/Line/Laws.antt =====
-- What `parse_line` of http_conn.cpp finds, and that it goes on where it left off.
use unix_network_programming.Base.{
  ℕ, zero, suc, ◌+◌, ◌-◌, ◌≤◌, ◌<◌, ◌≡◌, ◌≢◌, refl, sym, ap, ap₂, subst, ◌∙◌, List, [], ◌∷◌, ◌++◌,
  append_assoc, Bool, true, false, ◌&&◌, ◌==◌, leb, if◌then◌else◌, then_branch, else_branch, length,
  set, All, arith, length-append,
}
use unix_network_programming.HttpConn.{Conn, LineStatus, line_ok, line_bad, line_open, byte}
use unix_network_programming.HttpConn.Line.{cr, lf, Parsed, parsed, parse_from, parse_line}

-- A byte that ends no line.
abbrev pub IsPlain : ℕ → Type 0
IsPlain b = (b ≢ 13) × (b ≢ 10)

pub byte-append : (xs : List ℕ) (y : ℕ) (ys : List ℕ) → byte (xs ++ y ∷ ys) (length xs) ≡ y
byte-append [] y ys = refl
byte-append (x ∷ xs) y ys = byte-append xs y ys

byte-append_next :
    (xs : List ℕ) (a b : ℕ) (ys : List ℕ) → byte (xs ++ a ∷ b ∷ ys) (suc (length xs)) ≡ b
byte-append_next [] a b ys = refl
byte-append_next (x ∷ xs) a b ys = byte-append_next xs a b ys

set_both :
    (xs : List ℕ) (a b : ℕ) (ys : List ℕ)
    → set (set (xs ++ a ∷ b ∷ ys) (length xs) 0) (suc (length xs)) 0 ≡ xs ++ 0 ∷ 0 ∷ ys
set_both [] a b ys = refl
set_both (x ∷ xs) a b ys = ap (◌∷◌ x) (set_both xs a b ys)

-- One step of the loop on a byte that ends no line.
pub parse_from_plain :
    (left i : ℕ) (buf : List ℕ)
    → IsPlain (byte buf i)
    → parse_from (suc left) i buf ≡ parse_from left (suc i) buf
unfolding parse_from
parse_from_plain left i buf (n, m) =
    else_branch {b = byte buf i == cr} _ _ (ground arith)
    ∙ else_branch {b = byte buf i == lf} _ _ (ground arith)

parse_from_end :
    (left : ℕ) (pre post : List ℕ)
    → parse_from (suc (suc left)) (length pre) (pre ++ 13 ∷ 10 ∷ post)
      ≡ parsed line_ok (suc (suc (length pre))) (pre ++ 0 ∷ 0 ∷ post)
unfolding parse_from
parse_from_end left pre post =
    let buf = pre ++ 13 ∷ 10 ∷ post in
    let c = byte-append pre 13 (10 ∷ post) in
    let l = byte-append_next pre 13 10 post in
    then_branch {b = byte buf (length pre) == cr} _ _ (ground arith)
    ∙ else_branch {b = suc left == 0} _ _ (ground arith)
    ∙ then_branch {b = byte buf (suc (length pre)) == lf} _ _ (ground arith)
    ∙ ap (parsed line_ok (suc (suc (length pre)))) (set_both pre 13 10 post)

parse_from_line :
    (left : ℕ) (pre line post : List ℕ)
    → All IsPlain line
    → length line + 2 ≤ left
    → parse_from left (length pre) (pre ++ (line ++ 13 ∷ 10 ∷ post))
      ≡ parsed line_ok (length pre + length line + 2) (pre ++ (line ++ 0 ∷ 0 ∷ post))
parse_from_line zero pre line post h l = absurd (omega arith)
parse_from_line (suc zero) pre line post h l = absurd (omega arith)
parse_from_line (suc (suc left)) pre [] post h l =
    let e : suc (suc (length pre)) ≡ length pre + 0 + 2 = omega arith in
    parse_from_end left pre post ∙ ap (λ n. parsed line_ok n (pre ++ 0 ∷ 0 ∷ post)) e
parse_from_line (suc left) pre (b ∷ line) post (h, hs) l =
    let buf = pre ++ b ∷ (line ++ 13 ∷ 10 ∷ post) in
    let assoc : (ys : List ℕ) → (pre ++ b ∷ []) ++ ys ≡ pre ++ b ∷ ys = append_assoc pre (b ∷ []) in
    let n : length (pre ++ b ∷ []) ≡ suc (length pre) = omega (arith, length-append pre (b ∷ [])) in
    let next = parse_from_line left (pre ++ b ∷ []) line post hs (omega arith) in
    let m : length (pre ++ b ∷ []) + length line + 2 ≡ length pre + suc (length line) + 2 =
      omega arith in
    parse_from_plain left (length pre) buf
      (subst IsPlain (sym (byte-append pre b (line ++ 13 ∷ 10 ∷ post))) h)
    ∙ ap₂ (λ k u. parse_from left k u) (sym n) (sym (assoc (line ++ 13 ∷ 10 ∷ post)))
    ∙ next
    ∙ ap₂ (parsed line_ok) m (assoc (line ++ 0 ∷ 0 ∷ post))

-- Where a line without \r and \n is followed by both, and they have been read, parse_line finds its
-- end and puts nulls there, wherever in the line it begins.
pub parse_line_lem :
    (c : Conn) (pre line post : List ℕ)
    → c.read_buf ≡ pre ++ (line ++ 13 ∷ 10 ∷ post)
    → c.checked_idx ≡ length pre
    → All IsPlain line
    → length pre + length line + 2 ≤ c.read_idx
    → parse_line c ≡ parsed line_ok (length pre + length line + 2) (pre ++ (line ++ 0 ∷ 0 ∷ post))
unfolding parse_line
parse_line_lem c pre line post b k h l =
    ap₂ (λ i buf. parse_from (c.read_idx - i) i buf) k b
    ∙ parse_from_line (c.read_idx - length pre) pre line post h (omega arith)

-- The search in a longer buffer is the one that goes on at the place where a search ended open.
abbrev pub Continues : Parsed → ℕ → List ℕ → LineStatus → ℕ → Type 0
Continues whole last buf line_ok i = Unit
Continues whole last buf line_bad i = Unit
Continues whole last buf line_open i = whole ≡ parse_from (last - i) i buf

abbrev pub Resumes : Parsed → ℕ → List ℕ → Parsed → Type 0
Resumes whole last buf p = Continues whole last buf p.status p.checked_idx

if_Resumes :
    (whole : Parsed) (last : ℕ) (buf : List ℕ) (b : Bool) (x y : Parsed)
    → (b ≡ true → Resumes whole last buf x)
    → (b ≡ false → Resumes whole last buf y)
    → Resumes whole last buf (if b then x else y)
if_Resumes whole last buf true x y h k = h refl
if_Resumes whole last buf false x y h k = k refl

parse_from-Resumes :
    (left i last : ℕ) (buf buf' : List ℕ)
    → ((j : ℕ) → j < i + left → byte buf j ≡ byte buf' j)
    → i + left ≤ last
    → Resumes (parse_from (last - i) i buf') last buf' (parse_from left i buf)
unfolding parse_from
parse_from-Resumes zero i last buf buf' same l = refl
parse_from-Resumes (suc left) i last buf buf' same l =
    let whole = parse_from (last - i) i buf' in
    if_Resumes whole last buf' (byte buf i == cr) _ _
      (λ e.
        if_Resumes whole last buf' (left == 0) _ _ (λ z. refl)
          (λ z. if_Resumes whole last buf' (byte buf (suc i) == lf) _ _ (λ o. tt) (λ o. tt)))
      (λ e.
        if_Resumes whole last buf' (byte buf i == lf) _ _
          (λ f.
            if_Resumes whole last buf' (leb 1 i && byte buf (i - 1) == cr) _ _ (λ o. tt) (λ o. tt))
          (λ f.
            let n : last - i ≡ suc (last - suc i) = omega arith in
            let b = same i (omega arith) in
            let plain : IsPlain (byte buf' i) = (ground arith, ground arith) in
            let step =
              ap (λ k. parse_from k i buf') n ∙ parse_from_plain (last - suc i) i buf' plain in
            subst (λ w. Resumes w last buf' (parse_from left (suc i) buf)) (sym step)
              (parse_from-Resumes left (suc i) last buf buf' (λ j m. same j (omega arith))
                (omega arith))))

-- Where parse_line has found no end of a line in what was read, and more bytes follow those, it finds
-- from where it left off what it would have found from where it began.
pub parse_line_resumes :
    (c d : Conn) (i : ℕ) (buf : List ℕ)
    → parse_line c ≡ parsed line_open i buf
    → c.checked_idx ≤ c.read_idx
    → c.read_idx ≤ d.read_idx
    → ((j : ℕ) → j < c.read_idx → byte c.read_buf j ≡ byte d.read_buf j)
    → parse_line (record d { checked_idx = c.checked_idx })
      ≡ parse_line (record d { checked_idx = i })
unfolding parse_line
parse_line_resumes c d i buf h k l same =
    subst
      (Resumes (parse_from (d.read_idx - c.checked_idx) c.checked_idx d.read_buf) d.read_idx
        d.read_buf)
      h
      (parse_from-Resumes (c.read_idx - c.checked_idx) c.checked_idx d.read_idx c.read_buf
        d.read_buf (λ j m. same j (omega arith)) (omega arith))
