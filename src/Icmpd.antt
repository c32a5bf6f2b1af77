-- ===== src/Icmpd.antt =====
-- unpv1e3/icmpd, a daemon that tells its clients about ICMP errors: its table of clients, and what
-- it takes from the system. The configuration has IPV6. A port is the 16-bit number as it is stored.
pub mod Clients
pub mod Errors
pub mod Daemon
use unix_network_programming.Base.{
  ℕ, ◌+◌, ◌-◌, ◌*◌, List, [], ◌∷◌, Bool, true, false, Option, none, some, ◌==◌, ltb, if◌then◌else◌,
}

-- struct client: `none` in `connfd` is -1, which marks a place that is free, and in `lport` too.
pub record Client : Type 0 where
  pub connfd : Option ℕ
  pub family : ℕ
  pub lport : Option ℕ

-- struct icmpd_err, with the family, the port and the address of the destination.
pub record IcmpdErr : Type 0 where
  pub errno : ℕ
  pub icmp_type : ℕ
  pub icmp_code : ℕ
  pub len : ℕ
  pub dest_family : ℕ
  pub dest_port : ℕ
  pub dest_addr : List ℕ

-- What is written to a client, and a descriptor that is closed.
pub data Effect : Type 0 where
  tell : ℕ → Bool → Effect
  report : ℕ → IcmpdErr → Effect
  close : ℕ → Effect

-- client[], maxi + 1, allset, maxfd and nready, and what was done, in order.
pub record State : Type 0 where
  pub client : List Client
  pub used : ℕ
  pub allset : ℕ → Bool
  pub maxfd : ℕ
  pub nready : ℕ
  pub effects : List Effect

-- A function returns, or the process ends by err_quit or in a wrapper.
pub data Outcome : Type 0 where
  goes : State → Outcome
  exits : State → Outcome

-- --nready; Select counts every descriptor that is ready, so it is not 0 before.
abbrev pub one_less : State → State
one_less s = record s { nready = s.nready - 1 }

-- The set, with a descriptor and without it.
abbrev pub with_fd : ℕ → (ℕ → Bool) → ℕ → Bool
with_fd fd set other = if other == fd then true else set other

abbrev pub without_fd : ℕ → (ℕ → Bool) → ℕ → Bool
without_fd fd set other = if other == fd then false else set other

abbrev pub larger : ℕ → ℕ → ℕ
larger a b = if ltb b a then a else b
