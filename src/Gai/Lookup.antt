-- ===== src/Gai/Lookup.antt =====
-- `getaddrinfo` of unpv1e3/libgai/getaddrinfo.c.
pub mod Families
pub mod Laws
use unix_network_programming.Base.{
  ℕ, List, [], ◌∷◌, ◌++◌, codes, Bool, true, false, not, ◌&&◌, ◌||◌, Option, none, some, ◌==◌, leb,
  if◌then◌else◌, length, bit_and,
}
use unix_network_programming.CString.{same_bytes}
use unix_network_programming.Gai.{
  af_unspec, af_inet, af_inet6, ai_canonname, eai_addrfamily, eai_noname, eai_again, eai_fail,
  eai_nodata, Text, is_blank, text_bytes, Hints, AddrInfo, Call, pure, fail, ◌>>=◌, ◌>>◌, alloc,
  Hostent, HostAnswer, host_found, host_error, Resolver, is_digit, starts_with_digit,
}
use unix_network_programming.Gai.Check.{ga_echeck}
use unix_network_programming.Gai.Search.{Search, ga_nsearch}
use unix_network_programming.Gai.Entry.{ga_aistruct}
use unix_network_programming.Gai.Service.{ga_serv}
use unix_network_programming.Gai.Unix.{ga_unix, set_canonname}

-- h_errno, of <netdb.h>.
abbrev pub try_again : ℕ
try_again = 2

abbrev pub no_recovery : ℕ
no_recovery = 3

abbrev pub no_data : ℕ
no_data = 4

-- The `switch (h_errno)`; HOST_NOT_FOUND is the default's code.
abbrev pub eai_of : ℕ → ℕ
eai_of e =
    if e == try_again
    then eai_again
    else if e == no_recovery
    then eai_fail
    else if e == no_data
    then eai_nodata
    else eai_noname

-- isxdigit(host[0]) || host[0] == ':'
abbrev pub starts_like_ipv6 : List ℕ → Bool
starts_like_ipv6 [] = false
starts_like_ipv6 (c ∷ cs) =
    is_digit c || (leb b'a' c && leb c b'f') || (leb b'A' c && leb c b'F') || c == b':'

abbrev pub has_colon : List ℕ → Bool
has_colon [] = false
has_colon (c ∷ cs) = c == b':' || has_colon cs

-- A numeric address: its family and its bytes.
pub numeric4 : Resolver → List ℕ → Option (List ℕ)
numeric4 r host = if starts_with_digit host then r.pton4 host else none

pub numeric6 : Resolver → List ℕ → Option (List ℕ)
numeric6 r host = if starts_like_ipv6 host && has_colon host then r.pton6 host else none

-- A numeric address of a family: an error where the caller wants another family, and ignored where
-- the search is for another one.
pub use_numeric : Hints → ℕ → ℕ → List ℕ → Text → Call (List AddrInfo × Text)
use_numeric hints family wanted bytes canon =
    if not (hints.family == af_unspec) && not (hints.family == family)
    then fail eai_addrfamily
    else if not (wanted == family)
    then pure ([], canon)
    else (do ai ← ga_aistruct hints bytes family; pure (ai ∷ [], canon))

-- One structure for each address.
pub entries : Hints → ℕ → List (List ℕ) → Call (List AddrInfo)
entries hints family [] = pure []
entries hints family (bytes ∷ rest) = do
  ai ← ga_aistruct hints bytes family
  ais ← entries hints family rest
  pure (ai ∷ ais)

abbrev pub wants_canon : Text → Hints → Bool
wants_canon hostname hints = not (is_blank hostname) && not (bit_and hints.flags ai_canonname == 0)

-- The canonical name is saved the first time.
pub save_canon : Bool → Text → List ℕ → Call Text
save_canon wanted (some name) h_name = pure (some name)
save_canon wanted none h_name = if wanted then (do alloc; pure (some h_name)) else pure none

-- What gethostbyname answers.
pub use_answer : Text → Hints → Bool → HostAnswer → Text → Call (List AddrInfo × Text)
use_answer hostname hints two (host_error e) canon =
    if two then pure ([], canon) else fail (eai_of e)
use_answer hostname hints two (host_found h) canon =
    if not (hints.family == af_unspec) && not (hints.family == h.addrtype)
    then fail eai_addrfamily
    else (do
      name ← save_canon (wants_canon hostname hints) canon h.name
      ais ← entries hints h.addrtype h.addr_list
      pure (ais, name))

-- One round of the loop over the searches, given the two numeric readings of its host.
pub search_as :
    Option (List ℕ)
    → Option (List ℕ)
    → Hints
    → Search
    → Text
    → Call (List AddrInfo × Text)
    → Call (List AddrInfo × Text)
search_as (some bytes) six hints s canon asked = use_numeric hints af_inet s.family bytes canon
search_as none (some bytes) hints s canon asked = use_numeric hints af_inet6 s.family bytes canon
search_as none none hints s canon asked = asked

pub search_host : Resolver → Text → Hints → Bool → Search → Text → Call (List AddrInfo × Text)
search_host r hostname hints two s canon =
    search_as (numeric4 r s.host) (numeric6 r s.host) hints s canon
      (use_answer hostname hints two (r.gethost s.host s.family) canon)

pub search_hosts : Resolver → Text → Hints → Bool → List Search → Text → Call (List AddrInfo × Text)
search_hosts r hostname hints two [] canon = pure ([], canon)
search_hosts r hostname hints two (s ∷ ss) canon = do
  (ais, name) ← search_host r hostname hints two s canon
  (more, last) ← search_hosts r hostname hints two ss name
  pure (ais ++ more, last)

-- search[0].host
abbrev pub first_host : List Search → List ℕ
first_host [] = []
first_host (s ∷ ss) = s.host

-- The canonical name, from the answer or from the first search.
pub return_canon : Bool → Text → List ℕ → List AddrInfo → Call (List AddrInfo)
return_canon false canon host ais = pure ais
return_canon true (some name) host ais = pure (set_canonname (some name) ais)
return_canon true none host ais = do alloc; pure (set_canonname (some host) ais)

pub with_service : Resolver → Text → Hints → List AddrInfo → Call (List AddrInfo)
with_service r servname hints ais =
    if is_blank servname then pure ais else ga_serv r ais hints (text_bytes servname)

-- What follows the loop.
pub finish :
    Resolver → Text → Text → Hints → List Search → List AddrInfo × Text → Call (List AddrInfo)
finish r hostname servname hints ss ([], canon) = fail eai_noname
finish r hostname servname hints ss (ai ∷ ais, canon) = do
  named ← return_canon (wants_canon hostname hints) canon (first_host ss) (ai ∷ ais)
  with_service r servname hints named

pub internet : Resolver → Text → Text → Hints → Call (List AddrInfo)
internet r hostname servname hints = do
  ss ← ga_nsearch hostname hints
  result ← search_hosts r hostname hints (length ss == 2) ss none
  finish r hostname servname hints ss result

abbrev pub is_unix_host : Text → Bool
is_unix_host none = false
is_unix_host (some host) = same_bytes host (codes "/local") || same_bytes host (codes "/unix")

abbrev pub is_path : Text → Bool
is_path none = false
is_path (some []) = false
is_path (some (c ∷ cs)) = c == b'/'

unfoldable pub getaddrinfo : Resolver → Text → Text → Hints → Call (List AddrInfo)
unfolding internet finish with_service return_canon search_hosts search_host search_as use_answer
    save_canon entries use_numeric numeric4 numeric6 ga_echeck
getaddrinfo r hostname servname hints =
    let rc = ga_echeck hostname servname hints.flags hints.family hints.socktype in
    if not (rc == 0)
    then fail rc
    else if is_unix_host hostname && is_path servname
    then ga_unix r (text_bytes servname) hints
    else internet r hostname servname hints
