-- ===== src/Rtt/Laws.antt =====
-- The range of the retransmission timer.
use unix_network_programming.Base.{ℕ, ◌≡◌, false, Bool-cases, inl, inr}
use unix_network_programming.Rtt.{
  Floats, RttInfo, Timeval, rtt_rxtmin, rtt_rxtmax, rtt_minmax, rtt_init, rtt_stop,
}

module _ {F : Type 0} (fl : Floats F) where
  -- Not below RTT_RXTMIN, and not above RTT_RXTMAX.
  abbrev pub InRange : F → Type 0
  InRange rto =
      (fl.less rto (fl.of_int rtt_rxtmin) ≡ false) × (fl.less (fl.of_int rtt_rxtmax) rto ≡ false)

  minmax-InRange :
      (rto : F)
      → ((f : F) → fl.less f f ≡ false)
      → fl.less (fl.of_int rtt_rxtmax) (fl.of_int rtt_rxtmin) ≡ false
      → InRange (rtt_minmax fl rto)
  unfolding rtt_minmax
  minmax-InRange rto i d = elim (Bool-cases (fl.less rto (fl.of_int rtt_rxtmin))) [
    | inl e ↦ rw e (i (fl.of_int rtt_rxtmin), d)
    | inr e ↦ elim (Bool-cases (fl.less (fl.of_int rtt_rxtmax) rto)) [
      | inl f ↦ rw (e, f) (d, i (fl.of_int rtt_rxtmax))
      | inr f ↦ rw (e, f) (e, f)
    ]
  ]

  -- The timer that `rtt_init` and `rtt_stop` set is between RTT_RXTMIN and RTT_RXTMAX, whatever the
  -- round-trip time was, where no number is less than itself and 60 not less than 2.
  pub rto-InRange :
      (tv : Timeval) (ms : ℕ) (info : RttInfo F)
      → ((f : F) → fl.less f f ≡ false)
      → fl.less (fl.of_int rtt_rxtmax) (fl.of_int rtt_rxtmin) ≡ false
      → InRange (rtt_init fl tv info).rto × InRange (rtt_stop fl ms info).rto
  unfolding rtt_init rtt_stop
  rto-InRange tv ms info i d = (minmax-InRange _ i d, minmax-InRange _ i d)
