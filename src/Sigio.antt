-- ===== src/Sigio.antt =====
-- The queue of datagrams of unpv1e3/sigio/dgecho01.c: a signal handler reads them, and the main loop
-- sends them back. The steps of the main loop are those between which the handler can run.
pub mod Ring
pub mod Handler
pub mod Steps
use unix_network_programming.Base.{ℕ, ◌+◌, ◌-◌, List, [], ◌∷◌, Bool, ◌==◌, leb, if◌then◌else◌, take}

-- QSIZE and MAXDG.
abbrev pub qsize : ℕ
qsize = 8

abbrev pub maxdg : ℕ
maxdg = 4096

-- DG: the datagram with its length, the client's address, and the length of that.
pub record Dg : Type 0 where
  pub data_bytes : List ℕ
  pub sa : List ℕ
  pub salen : ℕ

-- What one call of recvfrom answers: a datagram with the address of its sender, no datagram
-- (EWOULDBLOCK), or another error.
pub data Received : Type 0 where
  datagram : List ℕ → List ℕ → Received
  would_block broken : Received

-- dg, iget, iput, nqueue, clilen and cntread.
pub record Queue : Type 0 where
  pub dg : ℕ → Dg
  pub iget : ℕ
  pub iput : ℕ
  pub nqueue : ℕ
  pub clilen : ℕ
  pub cntread : ℕ → ℕ

-- An array after the assignment to one element.
abbrev pub update {ℓ} : {A : Type ℓ} → (ℕ → A) → ℕ → A → ℕ → A
update f i a k = if k == i then a else f k

-- if (++i >= QSIZE) i = 0;
abbrev pub next : ℕ → ℕ
next i = if leb qsize (i + 1) then 0 else i + 1

-- iget = iput = nqueue = 0, with the buffers and the counters as they are.
abbrev pub initial : (ℕ → Dg) → ℕ → (ℕ → ℕ) → Queue
initial buffers clilen cntread = record {
  dg = buffers;
  iget = 0;
  iput = 0;
  nqueue = 0;
  clilen = clilen;
  cntread = cntread;
}
