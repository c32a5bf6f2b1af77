-- ===== src/Threads/Safety/Start.antt =====
-- A file that main starts in Threads.
use unix_network_programming.Base.{
  ℕ, ◌<◌, ◌≡◌, refl, sym, ap, subst, List, [], ◌∷◌, Bool, true, false, Option, none, some,
  if◌then◌else◌, get_elem?, total, total-set, All-set, All-get_elem?, At, arith,
}
use unix_network_programming.Threads.{
  Flags, f_none, f_connecting, f_reading, f_done, f_joined, Stage, absent, connects, File, starting,
  State, is_unused, find, one_up, start,
}
use unix_network_programming.Threads.Invariant.{
  Agrees, not_started, is_connecting, is_reading, has_ended, is_counting, is_leaving,
  has_terminated, was_joined, FileAgrees, unused_weight, open_weight, unread_weight, counted_weight,
  holding_weight, PlaceHolds, IsSound,
}

-- The file that is found is not started, and there is one where the weights say so.
abbrev pub Found : List File → Option ℕ → Type 0
Found fs none = total (λ f. unused_weight f.flags) fs ≡ 0
Found fs (some i) = (f : File) × (get_elem? fs i ≡ some f) × (is_unused f.flags ≡ true)

one_up-Found :
    (f : File) (fs : List File) (o : Option ℕ)
    → is_unused f.flags ≡ false
    → Found fs o
    → Found (f ∷ fs) (one_up o)
unfolding total
one_up-Found f fs none u h = let e = used_weight f.flags u in omega (arith, e, h)
  where
    used_weight : (flags : Flags) → is_unused flags ≡ false → unused_weight flags ≡ 0
    used_weight f_none u = ground arith
    used_weight f_connecting u = refl
    used_weight f_reading u = refl
    used_weight f_done u = refl
    used_weight f_joined u = refl
one_up-Found f fs (some i) u h = h

if_Found :
    (b : Bool) (fs : List File) (x y : Option ℕ)
    → (b ≡ true → Found fs x)
    → (b ≡ false → Found fs y)
    → Found fs (if b then x else y)
if_Found true fs x y h k = h refl
if_Found false fs x y h k = k refl

pub find-Found : (fs : List File) → Found fs (find fs)
unfolding find total
find-Found [] = refl
find-Found (f ∷ fs) =
    if_Found (is_unused f.flags) (f ∷ fs) (some 0) (one_up (find fs)) (λ u. (f, refl, u))
      (λ u. one_up-Found f fs (find fs) u (find-Found fs))

-- A file that is not started has no thread, and one that is done has a thread that may have ended.
unused_file :
    (flags : Flags) (stage : Stage)
    → Agrees flags stage
    → is_unused flags ≡ true
    → (flags ≡ f_none) × (stage ≡ absent)
unused_file flags stage not_started u = (refl, refl)
unused_file flags stage is_connecting u = ground arith
unused_file flags stage is_reading u = ground arith
unused_file flags stage has_ended u = ground arith
unused_file flags stage is_counting u = ground arith
unused_file flags stage is_leaving u = ground arith
unused_file flags stage has_terminated u = ground arith
unused_file flags stage was_joined u = ground arith

pub start-IsSound :
    (maxnconn : ℕ) (o : Option ℕ) (s : State)
    → s.place ≡ starting
    → Found s.files o
    → s.nconn < maxnconn
    → 0 < s.nlefttoconn
    → IsSound maxnconn s
    → IsSound maxnconn (start o s)
start-IsSound maxnconn none s e f l m (hu, ho, hr, hn, hb, hm, ha, hp) =
    absurd (omega (arith, f, hu))
start-IsSound maxnconn (some i) s e (f, g, u) l m (hu, ho, hr, hn, hb, hm, ha, hp) =
    let a : FileAgrees f = subst (At FileAgrees) g (All-get_elem? FileAgrees s.files i ha) in
    let (uf, us) = unused_file f.flags f.stage a u in
    let f' : File = record { flags = f_connecting; stage = connects } in
    let eu = total-set (λ f. unused_weight f.flags) s.files i f f' g in
    let eo = total-set (λ f. open_weight f.flags) s.files i f f' g in
    let er = total-set (λ f. unread_weight f.flags) s.files i f f' g in
    let en = total-set (λ f. counted_weight f.flags f.stage) s.files i f f' g in
    let eb = total-set (λ f. holding_weight f.stage) s.files i f f' g in
    let wu = ap unused_weight uf in
    let wo = ap open_weight uf in
    let wr = ap unread_weight uf in
    let wn = ap (λ x. counted_weight x f.stage) uf in
    let wb = ap holding_weight us in
    (
      omega arith,
      omega arith,
      omega arith,
      omega arith,
      omega arith,
      omega arith,
      All-set FileAgrees s.files i f' ha is_connecting,
      subst (λ p. PlaceHolds p (start (some i) s)) (sym e) tt,
    )
