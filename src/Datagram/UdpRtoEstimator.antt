-- ===== src/Datagram/UdpRtoEstimator.antt =====
-- lib/plexus-datagram/include/plexus/datagram/detail/udp_rto_estimator.h: the adaptive retransmission
-- timeout. A duration is its number of milliseconds.
pub mod Bounds
use plexus.Common.{ℕ, zero, suc, ◌+◌, ◌-◌, ◌*◌, ◌/◌, min, Bool, true, false, ltb, if◌then◌else◌}

pub record UdpRtoEstimator : Type 0 where
  pub min_rto : ℕ
  pub max_rto : ℕ
  pub rto : ℕ
  pub srtt : ℕ
  pub rttvar : ℕ
  pub seeded : Bool

unfoldable pub udp_rto_estimator : ℕ → ℕ → ℕ → UdpRtoEstimator
udp_rto_estimator initial min_rto max_rto = record {
  min_rto = min_rto;
  max_rto = max_rto;
  rto = initial;
  srtt = 0;
  rttvar = 0;
  seeded = false;
}

-- `std::clamp`.
abbrev pub clamp : ℕ → ℕ → ℕ → ℕ
clamp v lo hi = if ltb v lo then lo else if ltb hi v then hi else v

-- The smoothed round trip and its variation after a sample.
unfoldable pub smooth : ℕ → UdpRtoEstimator → UdpRtoEstimator
smooth rtt m =
    let err = if ltb rtt m.srtt then m.srtt - rtt else rtt - m.srtt in
    if m.seeded
    then record m { rttvar = (m.rttvar * 3 + err) / 4; srtt = (m.srtt * 7 + rtt) / 8 }
    else record m { srtt = rtt; rttvar = rtt / 2; seeded = true }

unfoldable pub sample : ℕ → UdpRtoEstimator → UdpRtoEstimator
sample rtt m =
    let m = smooth rtt m in record m { rto = clamp (m.srtt + m.rttvar * 4) m.min_rto m.max_rto }

-- The loop of `backed_off`.
unfoldable pub double_rto : ℕ → ℕ → ℕ → ℕ
double_rto zero r max_rto = r
double_rto (suc retransmits) r max_rto = double_rto retransmits (min (r * 2) max_rto) max_rto

unfoldable pub backed_off : ℕ → UdpRtoEstimator → ℕ
backed_off retransmits m = double_rto retransmits m.rto m.max_rto
