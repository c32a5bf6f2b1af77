-- ===== src/Httpd/Request/Laws.antt =====
-- How `do_http_request` reads a request line, and that it ends.
use unix_network_programming.Base.{
  ℕ, zero, suc, ◌+◌, ◌≤◌, ◌<◌, ◌≡◌, ◌≢◌, refl, ap, subst, ◌∙◌, List, [], ◌∷◌, ◌++◌, append_assoc,
  append-nil, codes, true, false, ltb, if◌then◌else◌, arith, length, length-append,
  get_elem?-append, All, Bool-cases, inl, inr,
}
use unix_network_programming.ByteIo.{Arrival, size}
use unix_network_programming.CString.{is_space, c_string, c_string_self, same_text}
use unix_network_programming.Httpd.{Client, Files, write_past_path, ok, fault, unimplemented}
use unix_network_programming.Httpd.Line.Laws.{
  readable, take_line, stored_line, behind_line, Flows, get_line-IsLine, length-stored_line,
}
use unix_network_programming.Httpd.Response.Laws.{
  answer, named, url_limit, do_http_response_lem, do_http_response_overflow,
}
use unix_network_programming.Httpd.Request.{
  buf_size, byte_at, copy_word, skip_spaces, served, refused, drain, after_response, handle_line,
}

-- A word: no white space and no null.
abbrev pub IsWord : List ℕ → Type 0
IsWord = All (λ b. (is_space b ≡ false) × (b ≢ 0))

abbrev pub AreSpaces : List ℕ → Type 0
AreSpaces = All (λ b. is_space b ≡ true)

byte_at-append :
    (pre : List ℕ) (b : ℕ) (post : List ℕ) → byte_at (pre ++ b ∷ post) (length pre) ≡ ok b
byte_at-append pre b post = rw (get_elem?-append pre b post, byte_at)

-- The step from one position to the next.
at_next : (pre : List ℕ) (b : ℕ) → length (pre ++ b ∷ []) ≡ length pre + 1
at_next pre b = length-append pre (b ∷ [])

-- A word of at most `room` bytes with white space behind it is copied whole.
copy_word_lem :
    (room : ℕ) (pre word : List ℕ) (sp : ℕ) (post copied : List ℕ)
    → IsWord word
    → is_space sp ≡ true
    → length word ≤ room
    → copy_word room (pre ++ (word ++ sp ∷ post)) (length pre) copied
      ≡ ok (copied ++ word, length pre + length word)
unfolding copy_word
copy_word_lem zero pre [] sp post copied w s h =
    rw (byte_at-append pre sp post, append-nil copied) (ap (λ n. ok (copied, n)) (omega arith))
copy_word_lem zero pre (b ∷ word) sp post copied w s h = absurd (omega arith)
copy_word_lem (suc room) pre [] sp post copied w s h =
    rw (byte_at-append pre sp post, s, append-nil copied) (ap (λ n. ok (copied, n)) (omega arith))
copy_word_lem (suc room) pre (b ∷ word) sp post copied w s h =
    rw (byte_at-append pre b (word ++ sp ∷ post), w.0.0)
      (rw (at_next pre b, append_assoc pre (b ∷ []), append_assoc copied (b ∷ [])) at
          (copy_word_lem room (pre ++ b ∷ []) word sp post (copied ++ b ∷ []) w.1 s (omega arith))
        ∙ ap (λ n. ok (copied ++ b ∷ word, n)) (omega arith))

-- White space behind position `j` is skipped, up to the first byte that is none.
skip_spaces_lem :
    (rounds : ℕ) (pre : List ℕ) (x : ℕ) (spaces : List ℕ) (b : ℕ) (post : List ℕ)
    → AreSpaces spaces
    → is_space b ≡ false
    → length spaces < rounds
    → skip_spaces rounds (pre ++ x ∷ (spaces ++ b ∷ post)) (length pre)
      ≡ ok (length pre + 1 + length spaces)
unfolding skip_spaces
skip_spaces_lem zero pre x spaces b post s n h = absurd (omega arith)
skip_spaces_lem (suc rounds) pre x [] b post s n h =
    rw
      (
        ← append_assoc pre (x ∷ []) (b ∷ post),
        ← at_next pre x,
        byte_at-append (pre ++ x ∷ []) b post,
        n,
      )
      (ap ok (omega arith))
skip_spaces_lem (suc rounds) pre x (y ∷ spaces) b post s n h =
    rw
      (
        ← append_assoc pre (x ∷ []) (y ∷ (spaces ++ b ∷ post)),
        ← at_next pre x,
        byte_at-append (pre ++ x ∷ []) y (spaces ++ b ∷ post),
        s.0,
      )
      (skip_spaces_lem rounds (pre ++ x ∷ []) y spaces b post s.1 n (omega arith)
        ∙ ap ok (omega arith))

Plain_of_word : (word : List ℕ) → IsWord word → All (λ b. b ≢ 0) word
Plain_of_word [] w = tt
Plain_of_word (b ∷ word) w = (w.0.1, Plain_of_word word w.1)

-- A buffer that begins with a method, white space, a URL and white space.
pub record IsRequest (buf method url : List ℕ) : Type 0 where
  pub sp : ℕ
  pub spaces : List ℕ
  pub sp' : ℕ
  pub post : List ℕ
  pub is_buf : buf ≡ method ++ sp ∷ (spaces ++ (url ++ sp' ∷ post))
  pub method_word : IsWord method
  pub method_fits : length method ≤ 15
  pub sp_space : is_space sp ≡ true
  pub spaces_space : AreSpaces spaces
  pub url_word : IsWord url
  pub url_fits : length url ≤ 255
  pub sp'_space : is_space sp' ≡ true

module _ {buf method url : List ℕ} (r : IsRequest buf method url) where
  open r use {
    sp, spaces, sp', post, is_buf, method_word, method_fits, sp_space, spaces_space, url_word,
    url_fits, sp'_space,
  }

  abbrev start : ℕ
  start = length method + 1 + length spaces

  copy_method : copy_word 15 buf 0 [] ≡ ok (method, length method)
  copy_method = rw is_buf (
      copy_word_lem 15 [] method sp (spaces ++ (url ++ sp' ∷ post)) [] method_word sp_space
        method_fits
      ∙ ap (λ n. ok (method, n)) (omega arith))

  is_method : c_string method ≡ method
  is_method = c_string_self method (Plain_of_word method method_word)

  copy_url : copy_word 255 buf start [] ≡ ok (url, start + length url)
  copy_url =
      let at_start : length (method ++ sp ∷ spaces) ≡ start =
        omega (arith, length-append method (sp ∷ spaces)) in
      rw (is_buf, ← append_assoc method (sp ∷ spaces) (url ++ sp' ∷ post), ← at_start)
        (copy_word_lem 255 (method ++ sp ∷ spaces) url sp' post [] url_word sp'_space url_fits)

skip_to_url :
    {buf method : List ℕ} (u : ℕ) (us : List ℕ) (r : IsRequest buf method (u ∷ us))
    → skip_spaces (length buf) buf (length method) ≡ ok (start r)
skip_to_url {buf} {method} u us r = rw r.is_buf (
    skip_spaces_lem _ method r.sp r.spaces u (us ++ r.sp' ∷ r.post) r.spaces_space r.url_word.0.0 (
      omega (
        arith,
        length-append method (r.sp ∷ (r.spaces ++ ((u ∷ us) ++ r.sp' ∷ r.post))),
        length-append r.spaces ((u ∷ us) ++ r.sp' ∷ r.post),
      )))

-- A request line is answered by its URL where its method is GET, in any case of letters, and
-- refused with the reply 501 otherwise.
pub handle_line_lem :
    (fs : Files) {buf method : List ℕ} (url : List ℕ) (c : Client)
    → IsRequest buf method url
    → url ≢ []
    → length url ≤ url_limit
    → handle_line fs buf c ≡ (
        if same_text method (codes "GET")
        then ok (after_response buf (answer fs (named url) c))
        else ok (refused (unimplemented c)))
unfolding handle_line
handle_line_lem fs [] c r n h = absurd (n refl)
handle_line_lem fs (u ∷ us) c r n h = rw (
  copy_method r,
  is_method r,
  skip_to_url u us r,
  copy_url r,
  c_string_self (u ∷ us) (Plain_of_word (u ∷ us) r.url_word),
  do_http_response_lem fs (u ∷ us) c n h,
)

-- A GET whose URL is too long for `path`.
pub handle_line_overflow :
    (fs : Files) {buf method : List ℕ} (url : List ℕ) (c : Client)
    → IsRequest buf method url
    → 248 ≤ length url
    → same_text method (codes "GET") ≡ true
    → handle_line fs buf c ≡ fault write_past_path
unfolding handle_line
handle_line_overflow fs [] c r n get = absurd (omega arith)
handle_line_overflow fs (u ∷ us) c r n get = rw (
  copy_method r,
  is_method r,
  get,
  skip_to_url u us r,
  copy_url r,
  c_string_self (u ∷ us) (Plain_of_word (u ∷ us) r.url_word),
  do_http_response_overflow fs (u ∷ us) c n,
)

-- What stands behind the line in the buffer does not matter.
pub IsRequest-append :
    {l method url : List ℕ} (behind : List ℕ)
    → IsRequest l method url
    → IsRequest (l ++ behind) method url
IsRequest-append {l} {method} {url} behind r = record {
  sp = r.sp;
  spaces = r.spaces;
  sp' = r.sp';
  post = r.post ++ behind;
  is_buf =
      ap (λ t. t ++ behind) r.is_buf
      ∙ append_assoc method (r.sp ∷ (r.spaces ++ (url ++ r.sp' ∷ r.post))) behind
      ∙ ap (λ t. method ++ r.sp ∷ t)
          (append_assoc r.spaces (url ++ r.sp' ∷ r.post) behind
            ∙ ap (λ t. r.spaces ++ t) (append_assoc url (r.sp' ∷ r.post) behind));
  method_word = r.method_word;
  method_fits = r.method_fits;
  sp_space = r.sp_space;
  spaces_space = r.spaces_space;
  url_word = r.url_word;
  url_fits = r.url_fits;
  sp'_space = r.sp'_space;
}

-- The second text stands behind a first empty line of the first, and any lines before that.
pub data Headers : List ℕ → List ℕ → Type 0 where
  blank_line :
      (bs post : List ℕ) → take_line 255 bs ≡ [] → post ≡ behind_line 255 bs → Headers bs post
  header_line :
      (bs post : List ℕ)
      → 0 < length (take_line 255 bs)
      → Headers (behind_line 255 bs) post
      → Headers bs post

empty_line : (l : List ℕ) → length l ≡ 0 → l ≡ []
empty_line [] h = refl
empty_line (b ∷ l) h = absurd (omega arith)

-- The header lines are read until one is empty; more rounds than arrivals are enough.
pub drain_ends :
    (fuel : ℕ) (buf : List ℕ) (c : Client)
    → size c.input < fuel
    → buf_size ≤ length buf
    → (rest : List Arrival) × (drain fuel buf c ≡ served (record c { input = rest }))
      × (Flows c.input → Headers (readable c.input) (readable rest))
unfolding drain
drain_ends zero buf c f h = absurd (omega arith)
drain_ends (suc fuel) buf c f h =
    let l = take_line 255 (readable c.input) in
    let (rest, runs, smaller, behind) = get_line-IsLine buf_size buf c.input (omega arith) h in
    elim (Bool-cases (ltb 0 (length l))) [
      | inl more ↦
          let (end, stops, read_all) =
            drain_ends fuel (stored_line 255 (readable c.input) buf) (record c { input = rest })
              (ground arith) (omega (arith, length-stored_line 255 (readable c.input) buf h)) in
          rw (runs, drain, more)
            (
              end,
              stops,
              λ g.
                  let (g', e) = behind g in
                  header_line (readable c.input) (readable end) (ground arith)
                    (subst (λ bs. Headers bs (readable end)) e (read_all g')),
            )
      | inr empty ↦
          rw (runs, drain, empty)
            (
              rest,
              refl,
              λ g.
                  blank_line (readable c.input) (readable rest) (empty_line l (ground arith))
                    (behind g).1,
            )
    ]
