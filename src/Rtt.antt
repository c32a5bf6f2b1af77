-- ===== src/Rtt.antt =====
-- The retransmission timer of unpv1e3/lib/rtt.c and unprtt.h.
pub mod Laws
pub mod SendRecv
use unix_network_programming.Base.{
  ℕ, ◌+◌, ◌-◌, ◌*◌, ◌/◌, ◌%◌, Bool, true, false, leb, ltb, if◌then◌else◌,
}

-- The floating-point numbers of the machine: `literal n d` is the constant n / d, `float` the
-- conversion of a double where it is stored, `to_int` that to int.
pub record Floats (F : Type 0) : Type 0 where
  pub literal : ℕ → ℕ → F
  pub float : F → F
  pub of_int : ℕ → F
  pub to_int : F → ℕ
  pub add : F → F → F
  pub sub : F → F → F
  pub mul : F → F → F
  pub div : F → F → F
  pub neg : F → F
  pub less : F → F → Bool

-- RTT_RXTMIN, RTT_RXTMAX and RTT_MAXNREXMT
abbrev pub rtt_rxtmin : ℕ
rtt_rxtmin = 2

abbrev pub rtt_rxtmax : ℕ
rtt_rxtmax = 60

abbrev pub rtt_maxnrexmt : ℕ
rtt_maxnrexmt = 3

-- uint32_t
abbrev pub two_32 : ℕ
two_32 = 4294967296

abbrev pub uint32 : ℕ → ℕ
uint32 n = n % two_32

-- struct rtt_info
pub record RttInfo (F : Type 0) : Type 0 where
  pub rtt : F
  pub srtt : F
  pub rttvar : F
  pub rto : F
  pub nrexmt : ℕ
  pub base : ℕ

-- struct timeval, as Gettimeofday gives it.
pub record Timeval : Type 0 where
  pub sec : ℕ
  pub usec : ℕ

module _ {F : Type 0} (fl : Floats F) where
  -- RTT_RTOCALC
  abbrev pub rto_calc : F → F → F
  rto_calc srtt rttvar = fl.add srtt (fl.mul (fl.literal 4 1) rttvar)

  unfoldable pub rtt_minmax : F → F
  rtt_minmax rto =
      if fl.less rto (fl.of_int rtt_rxtmin)
      then fl.of_int rtt_rxtmin
      else if fl.less (fl.of_int rtt_rxtmax) rto
      then fl.of_int rtt_rxtmax
      else rto

  unfoldable pub rtt_init : Timeval → RttInfo F → RttInfo F
  unfolding rtt_minmax
  rtt_init tv info = record info {
    base = uint32 tv.sec;
    rtt = fl.of_int 0;
    srtt = fl.of_int 0;
    rttvar = fl.float (fl.literal 3 4);
    rto = rtt_minmax (fl.float (rto_calc (fl.of_int 0) (fl.float (fl.literal 3 4))));
  }

  -- Milliseconds since rtt_init; the seconds before it do not occur.
  unfoldable pub rtt_ts : Timeval → RttInfo F → ℕ
  rtt_ts tv info = uint32 ((tv.sec - info.base) * 1000 + tv.usec / 1000)

  unfoldable pub rtt_newpack : RttInfo F → RttInfo F
  rtt_newpack info = record info { nrexmt = 0 }

  unfoldable pub rtt_start : RttInfo F → ℕ
  rtt_start info = fl.to_int (fl.add info.rto (fl.literal 1 2))

  abbrev pub absolute : F → F
  absolute delta = if fl.less delta (fl.literal 0 1) then fl.neg delta else delta

  unfoldable pub rtt_stop : ℕ → RttInfo F → RttInfo F
  unfolding rtt_minmax
  rtt_stop ms info =
      let rtt = fl.float (fl.div (fl.of_int ms) (fl.literal 1000 1)) in
      let delta = fl.sub rtt info.srtt in
      let srtt = fl.float (fl.add info.srtt (fl.div delta (fl.of_int 8))) in
      let rttvar =
        fl.float
          (fl.add info.rttvar (fl.div (fl.sub (absolute delta) info.rttvar) (fl.of_int 4))) in
      record info {
        rtt = rtt;
        srtt = srtt;
        rttvar = rttvar;
        rto = rtt_minmax (fl.float (rto_calc srtt rttvar));
      }

  -- Whether to go on, where the source returns 0, and the timer.
  unfoldable pub rtt_timeout : RttInfo F → Bool × RttInfo F
  rtt_timeout info =
      let later = record info {
        rto = fl.float (fl.mul info.rto (fl.of_int 2));
        nrexmt = info.nrexmt + 1;
      } in
      if ltb rtt_maxnrexmt later.nrexmt then (false, later) else (true, later)
