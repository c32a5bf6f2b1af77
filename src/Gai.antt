-- ===== src/Gai.antt =====
-- unpv1e3/libgai, the book's getaddrinfo: its data, and what it takes from the system.
-- The configuration is that of unpv1e3/config.h: IPv4, IPv6 and UNIXdomain are defined,
-- HAVE_SOCKADDR_SA_LEN is not. The constants are those of libgai/addrinfo.h and of the system.
pub mod Outcome
pub mod Check
pub mod Search
pub mod Entry
pub mod Service
pub mod Unix
pub mod Lookup
use unix_network_programming.Base.{
  ℕ, ◌+◌, ◌-◌, ◌*◌, ◌/◌, ◌%◌, List, [], ◌∷◌, ◌++◌, Bool, true, false, ◌&&◌, Option, none, some,
  ◌==◌, not, leb, if◌then◌else◌, bit_and,
}

abbrev pub af_unspec : ℕ
af_unspec = 0

abbrev pub af_local : ℕ
af_local = 1

abbrev pub af_inet : ℕ
af_inet = 2

abbrev pub af_inet6 : ℕ
af_inet6 = 10

abbrev pub sock_stream : ℕ
sock_stream = 1

abbrev pub sock_dgram : ℕ
sock_dgram = 2

abbrev pub sock_raw : ℕ
sock_raw = 3

abbrev pub ai_passive : ℕ
ai_passive = 1

abbrev pub ai_canonname : ℕ
ai_canonname = 2

-- The error codes.
abbrev pub eai_addrfamily : ℕ
eai_addrfamily = 1

abbrev pub eai_again : ℕ
eai_again = 2

abbrev pub eai_badflags : ℕ
eai_badflags = 3

abbrev pub eai_fail : ℕ
eai_fail = 4

abbrev pub eai_family : ℕ
eai_family = 5

abbrev pub eai_memory : ℕ
eai_memory = 6

abbrev pub eai_nodata : ℕ
eai_nodata = 7

abbrev pub eai_noname : ℕ
eai_noname = 8

abbrev pub eai_service : ℕ
eai_service = 9

abbrev pub eai_socktype : ℕ
eai_socktype = 10

abbrev pub eai_system : ℕ
eai_system = 11

-- A text that may be NULL.
abbrev pub Text : Type 0
Text = Option (List ℕ)

-- NULL or ""
abbrev pub is_blank : Text → Bool
is_blank none = true
is_blank (some []) = true
is_blank (some (b ∷ bs)) = false

abbrev pub text_bytes : Text → List ℕ
text_bytes none = []
text_bytes (some bs) = bs

pub record Hints : Type 0 where
  pub flags : ℕ
  pub family : ℕ
  pub socktype : ℕ
  pub protocol : ℕ

-- A socket address: the port as it is stored, and the address bytes or the path.
pub record SockAddr : Type 0 where
  pub family : ℕ
  pub port : ℕ
  pub bytes : List ℕ

-- struct addrinfo; `clone` is the flag AI_CLONE, the only one that the library sets, and `none` in
-- `addr` is NULL. The list that `ai_next` makes is a list of these.
pub record AddrInfo : Type 0 where
  pub clone : Bool
  pub family : ℕ
  pub socktype : ℕ
  pub protocol : ℕ
  pub addrlen : ℕ
  pub canonname : Text
  pub addr : Option SockAddr

-- What a call changes beside its result: how many more allocations succeed, and the paths that
-- were unlinked.
pub record World : Type 0 where
  pub allocs : ℕ
  pub unlinked : List (List ℕ)

-- A call returns normally, returns an error code, or ends the process by `err_quit`.
pub data Run {ℓ} (A : Type ℓ) : Type ℓ where
  done : A → World → Run A
  error : ℕ → World → Run A
  quits : Run A

abbrev pub Call {ℓ} : Type ℓ → Type ℓ
Call A = World → Run A

abbrev pub pure {ℓ} : {A : Type ℓ} → A → Call A
pure a w = done a w

abbrev pub fail {ℓ} : {A : Type ℓ} → ℕ → Call A
fail e w = error e w

-- What follows a call.
abbrev pub and_then {ℓ κ} : {A : Type ℓ} {B : Type κ} → Run A → (A → Call B) → Run B
and_then (done a w) f = f a w
and_then (error e w) f = error e w
and_then quits f = quits

infixl 5 ◌>>=◌ ◌>>◌
abbrev pub ◌>>=◌ {ℓ κ} : {A : Type ℓ} {B : Type κ} → Call A → (A → Call B) → Call B
◌>>=◌ m f w = and_then (m w) f

abbrev pub ◌>>◌ {ℓ} : {B : Type ℓ} → Call (Unit {0}) → Call B → Call B
m >> k = m >>= λ _. k

-- calloc, malloc and strdup; every caller turns a failure into EAI_MEMORY.
unfoldable pub alloc : Call (Unit {0})
alloc w = if w.allocs == 0 then error eai_memory w else done tt (record w { allocs = w.allocs - 1 })

pub record Hostent : Type 0 where
  pub name : List ℕ
  pub addrtype : ℕ
  pub addr_list : List (List ℕ)

pub data HostAnswer : Type 0 where
  host_found : Hostent → HostAnswer
  host_error : ℕ → HostAnswer

pub data Protocol : Type 0 where
  tcp udp : Protocol

-- The system's resolver: `gethost` stands for gethostbyname2 and, with the resolver's option set by
-- the family, for gethostbyname; `service` is the port of getservbyname, in network byte order.
pub record Resolver : Type 0 where
  pub pton4 : List ℕ → Option (List ℕ)
  pub pton6 : List ℕ → Option (List ℕ)
  pub gethost : List ℕ → ℕ → HostAnswer
  pub service : List ℕ → Protocol → Option ℕ
  pub nodename : Text

-- The byte order of the network, for a 16-bit number.
abbrev pub htons : ℕ → ℕ
htons n = n % 256 * 256 + n / 256 % 256

abbrev pub is_digit : ℕ → Bool
is_digit c = leb b'0' c && leb c b'9'

abbrev pub starts_with_digit : List ℕ → Bool
starts_with_digit [] = false
starts_with_digit (c ∷ cs) = is_digit c

-- atoi, for a text that begins with a digit.
abbrev pub atoi_from : ℕ → List ℕ → ℕ
atoi_from n [] = n
atoi_from n (c ∷ cs) =
    let rest = atoi_from (n * 10 + (c - b'0')) cs in if is_digit c then rest else n
