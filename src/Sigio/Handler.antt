-- ===== src/Sigio/Handler.antt =====
-- `sig_io` of unpv1e3/sigio/dgecho01.c.
pub mod Laws
use unix_network_programming.Base.{
  ℕ, suc, ◌+◌, List, [], ◌∷◌, length, min, leb, if◌then◌else◌, take,
}
use unix_network_programming.Sigio.{
  qsize, maxdg, Dg, Received, datagram, would_block, broken, Queue, update, next,
}

-- The handler returns, or ends the process by `err_quit` or `err_sys`; `unanswered` is a sequence of
-- answers that ends before the handler does.
pub data Outcome : Type 0 where
  returned : Queue → Outcome
  overflow broke unanswered : Outcome

-- ptr->dg_salen = clilen
abbrev pub prepare : Queue → Queue
prepare q = record q { dg = update q.dg q.iput (record (q.dg q.iput) { salen = q.clilen }) }

-- What recvfrom stores: no more than MAXDG bytes, and no more of the address than fits.
unfoldable pub stored : ℕ → List ℕ → List ℕ → Dg
stored clilen bytes from = record {
  data_bytes = take maxdg bytes;
  sa = take clilen from;
  salen = length from;
}

abbrev pub put : List ℕ → List ℕ → Queue → Queue
put bytes from q = record q {
  dg = update q.dg q.iput (stored q.clilen bytes from);
  nqueue = suc q.nqueue;
  iput = next q.iput;
}

-- cntread[nread]++
abbrev pub count : ℕ → Queue → Queue
count nread q = record q { cntread = update q.cntread nread (q.cntread nread + 1) }

-- The loop from `nread` on.
unfoldable pub sig_io_loop : List Received → ℕ → Queue → Outcome
sig_io_loop [] nread q = if leb qsize q.nqueue then overflow else unanswered
sig_io_loop (would_block ∷ rest) nread q =
    if leb qsize q.nqueue then overflow else returned (count nread (prepare q))
sig_io_loop (broken ∷ rest) nread q = if leb qsize q.nqueue then overflow else broke
sig_io_loop (datagram bytes from ∷ rest) nread q =
    let continue = sig_io_loop rest (nread + 1) (put bytes from (prepare q)) in
    if leb qsize q.nqueue then overflow else continue

unfoldable pub sig_io : List Received → Queue → Outcome
sig_io answers q = sig_io_loop answers 0 q

-- What the handler stores.
abbrev pub reads : ℕ → List Received → List Dg
reads clilen [] = []
reads clilen (datagram bytes from ∷ rest) = stored clilen bytes from ∷ reads clilen rest
reads clilen (would_block ∷ rest) = []
reads clilen (broken ∷ rest) = []
