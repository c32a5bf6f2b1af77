-- ===== src/Icmpd/Errors.antt =====
-- `readable_v4` and `readable_v6` of unpv1e3/icmpd.
pub mod Laws
use unix_network_programming.Base.{
  ℕ, zero, suc, ◌+◌, ◌*◌, ◌%◌, List, [], ◌∷◌, ◌++◌, Bool, true, false, ◌&&◌, ◌||◌, Option, none,
  some, ◌==◌, ltb, if◌then◌else◌, take,
}
use unix_network_programming.Gai.{af_inet, af_inet6}
use unix_network_programming.Icmpd.{
  Client, IcmpdErr, Effect, report, State, Outcome, goes, exits, one_less,
}

-- What Recvfrom stores: `size` bytes, behind which the buffer holds what the stack held.
pub record Packet : Type 0 where
  pub size : ℕ
  pub byte : ℕ → ℕ

abbrev pub ehostunreach : ℕ
ehostunreach = 113

abbrev pub econnrefused : ℕ
econnrefused = 111

abbrev pub emsgsize : ℕ
emsgsize = 90

abbrev pub udp_protocol : ℕ
udp_protocol = 17

abbrev pub bytes_at : ℕ → ℕ → (ℕ → ℕ) → List ℕ
bytes_at start zero byte = []
bytes_at start (suc n) byte = byte start ∷ bytes_at (start + 1) n byte

-- A 16-bit field, as it is stored.
abbrev pub field16 : (ℕ → ℕ) → ℕ → ℕ
field16 byte at = byte at + byte (at + 1) * 256

-- ip_hl << 2
abbrev pub header_length : (ℕ → ℕ) → ℕ → ℕ
header_length byte at = byte at % 16 * 4

abbrev pub same_port : Option ℕ → ℕ → Bool
same_port none sport = false
same_port (some port) sport = port == sport

-- The report, where the client is there and has the port.
abbrev pub report_to : Option ℕ → Bool → IcmpdErr → List Effect
report_to none wanted e = []
report_to (some fd) wanted e = if wanted then report fd e ∷ [] else []

-- The loop over the first `used` clients.
pub report_all : ℕ → ℕ → ℕ → IcmpdErr → List Client → List Effect
report_all zero family sport e cs = []
report_all (suc used) family sport e [] = []
report_all (suc used) family sport e (c ∷ cs) =
    report_to c.connfd (c.family == family && same_port c.lport sport) e
    ++ report_all used family sport e cs

abbrev pub errno4 : ℕ → ℕ → ℕ
errno4 icmp_type icmp_code =
    if icmp_type == 3
    then (if icmp_code == 3
        then econnrefused
        else if icmp_code == 4
        then emsgsize
        else ehostunreach)
    else ehostunreach

-- The error for a datagram whose IP header is at `hip` and UDP header at `udp`.
abbrev pub error4 : (ℕ → ℕ) → ℕ → ℕ → ℕ → IcmpdErr
error4 byte icmp hip udp = record {
  errno = errno4 (byte icmp) (byte (icmp + 1));
  icmp_type = byte icmp;
  icmp_code = byte (icmp + 1);
  len = 16;
  dest_family = af_inet;
  dest_port = field16 byte (udp + 2);
  dest_addr = bytes_at (hip + 16) 4 byte;
}

abbrev pub is_error4 : ℕ → Bool
is_error4 icmp_type = icmp_type == 3 || (icmp_type == 11 || icmp_type == 4)

-- What is written to the clients.
pub reports4 : Packet → State → List Effect
unfolding report_all
reports4 p s =
    let icmp = header_length p.byte 0 in
    let hip = icmp + 8 in
    let udp = hip + header_length p.byte hip in
    if p.byte (hip + 9) == udp_protocol
    then report_all s.used af_inet (field16 p.byte udp) (error4 p.byte icmp hip udp) s.client
    else []

abbrev pub with_reports : List Effect → State → Outcome
with_reports es s = goes (one_less (record s { effects = s.effects ++ es }))

unfoldable pub readable_v4 : Packet → State → Outcome
unfolding reports4
readable_v4 p s =
    let icmp = header_length p.byte 0 in
    if ltb p.size (icmp + 8)
    then exits s
    else if is_error4 (p.byte icmp)
    then (if ltb p.size (icmp + (8 + 20 + 8)) then exits s else with_reports (reports4 p s) s)
    else with_reports [] s

-- sizeof(struct ip6_hdr)
abbrev pub ip6_size : ℕ
ip6_size = 40

abbrev pub errno6 : ℕ → ℕ → ℕ
errno6 icmp_type icmp_code =
    if icmp_type == 2
    then emsgsize
    else if icmp_type == 1 && icmp_code == 4
    then econnrefused
    else ehostunreach

abbrev pub error6 : (ℕ → ℕ) → IcmpdErr
error6 byte = record {
  errno = errno6 (byte 0) (byte 1);
  icmp_type = byte 0;
  icmp_code = byte 1;
  len = 28;
  dest_family = af_inet6;
  dest_port = field16 byte (8 + ip6_size + 2);
  dest_addr = bytes_at (8 + 24) 16 byte;
}

abbrev pub is_error6 : ℕ → Bool
is_error6 icmp_type = icmp_type == 1 || (icmp_type == 2 || icmp_type == 3)

pub reports6 : Packet → State → List Effect
unfolding report_all
reports6 p s =
    if p.byte (8 + 6) == udp_protocol
    then report_all s.used af_inet6 (field16 p.byte (8 + ip6_size)) (error6 p.byte) s.client
    else []

unfoldable pub readable_v6 : Packet → State → Outcome
unfolding reports6
readable_v6 p s =
    if ltb p.size 8
    then exits s
    else if is_error6 (p.byte 0)
    then (if ltb p.size (8 + 8) then exits s else with_reports (reports6 p s) s)
    else with_reports [] s
