-- ===== src/Gai/Search.antt =====
-- `ga_nsearch` of unpv1e3/libgai/ga_nsearch.c.
pub mod Laws
use unix_network_programming.Base.{
  ℕ, List, [], ◌∷◌, codes, Option, none, some, ◌==◌, not, if◌then◌else◌, bit_and,
}
use unix_network_programming.Gai.{
  af_unspec, af_inet, af_inet6, ai_passive, Text, is_blank, text_bytes, Hints, Call, pure, quits,
}

pub record Search : Type 0 where
  pub host : List ℕ
  pub family : ℕ

abbrev pub entry : List ℕ → ℕ → Search
entry host family = record { host = host; family = family }

-- The `switch` of each of the three cases: the hosts looked up in IPv4 and in IPv6.
pub by_family : ℕ → (host4 host6 : List ℕ) → List Search
by_family family host4 host6 =
    if family == af_inet
    then entry host4 af_inet ∷ []
    else if family == af_inet6
    then entry host6 af_inet6 ∷ []
    else if family == af_unspec
    then entry host6 af_inet6 ∷ entry host4 af_inet ∷ []
    else []

pub searches : Text → Hints → List Search
searches hostname hints =
    if is_blank hostname
    then (if not (bit_and hints.flags ai_passive == 0)
        then by_family hints.family (codes "0.0.0.0") (codes "0::0")
        else by_family hints.family (codes "localhost") (codes "0::1"))
    else by_family hints.family (text_bytes hostname) (text_bytes hostname)

-- `err_quit` where there is no search.
pub some_searches : List Search → Call (List Search)
some_searches [] w = quits
some_searches (s ∷ ss) w = pure (s ∷ ss) w

unfoldable pub ga_nsearch : Text → Hints → Call (List Search)
unfolding some_searches searches by_family
ga_nsearch hostname hints = some_searches (searches hostname hints)
