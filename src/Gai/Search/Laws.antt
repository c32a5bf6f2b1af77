-- ===== src/Gai/Search/Laws.antt =====
-- The families that `ga_nsearch` lists.
use unix_network_programming.Base.{ℕ, ◌≡◌, ◌≢◌, ◌⊎◌, List, [], ◌∷◌, arith}
use unix_network_programming.Gai.{af_unspec, af_inet, af_inet6, Text, Hints, World, done, quits}
use unix_network_programming.Gai.Search.{Search, searches, ga_nsearch}

-- The families to search for, in order.
abbrev pub FamiliesOf : ℕ → List Search → Type 0
FamiliesOf family [] = ⊥
FamiliesOf family (s ∷ []) = (s.family ≡ family) × (family ≢ af_unspec)
FamiliesOf family (s ∷ t ∷ []) = (family ≡ af_unspec) × (s.family ≡ af_inet6) × (t.family ≡ af_inet)
FamiliesOf family (s ∷ t ∷ u ∷ rest) = ⊥

-- For a family of the internet, or none, there are one or two searches.
pub ga_nsearch_lem :
    (hostname : Text) (hints : Hints) (w : World)
    → (hints.family ≡ af_unspec) ⊎ (hints.family ≡ af_inet) ⊎ (hints.family ≡ af_inet6)
    → (ss : List Search) × (ga_nsearch hostname hints w ≡ done ss w) × FamiliesOf hints.family ss
unfolding ga_nsearch
ga_nsearch_lem hostname hints w h = (searches hostname hints, ground arith, ground arith)

-- For any other family the process ends.
pub ga_nsearch_quits :
    (hostname : Text) (hints : Hints) (w : World)
    → hints.family ≢ af_unspec
    → hints.family ≢ af_inet
    → hints.family ≢ af_inet6
    → ga_nsearch hostname hints w ≡ quits
unfolding ga_nsearch
ga_nsearch_quits hostname hints w u i6 i4 = ground arith
