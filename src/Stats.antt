-- ===== src/Stats.antt =====
-- The counters of packets (infrastructure/stats/StatsCollector.cpp and .h). One call of OnPacket is one step
-- here; Stats.Loop lets the steps of its compare-and-exchange loop interleave with those of other threads.
-- Times are nanoseconds; the two quotients of doubles are parameters.
pub mod Counting
pub mod Extreme
pub mod Loop
mod Tests
use tcp_redirector.Prelude.{
  ℕ, ◌-◌, ◌/◌, Bool, List, [], ◌∷◌, ltb, ◌==◌, add64, sub64, if◌then◌else◌, u32_mod,
}

pub record PacketInfo : Type 0 where
  pub packet_size : ℕ
  pub protocol : ℕ
  pub redirected : Bool
  pub error : Bool
  pub flow_id : ℕ

pub record StatsCollector : Type 0 where
  pub total_packets : ℕ
  pub tcp_packets : ℕ
  pub redirected_packets : ℕ
  pub errors : ℕ
  pub total_bytes : ℕ
  pub min_packet_size : ℕ
  pub max_packet_size : ℕ
  pub last_stats_call : ℕ
  pub last_total_packets : ℕ

pub record StatsSnapshot : Type 0 where
  pub total_packets : ℕ
  pub tcp_packets : ℕ
  pub redirected_packets : ℕ
  pub errors : ℕ
  pub total_bytes : ℕ
  pub min_packet_size : ℕ
  pub max_packet_size : ℕ
  pub avg_packet_size : ℕ
  pub packets_per_second : ℕ

abbrev pub count_if : Bool → ℕ → ℕ
count_if b n = if b then add64 n 1 else n

unfoldable pub on_packet : PacketInfo → StatsCollector → StatsCollector
on_packet p s = record s {
  total_packets = add64 s.total_packets 1;
  total_bytes = add64 s.total_bytes p.packet_size;
  tcp_packets = count_if (p.protocol == 6) s.tcp_packets;
  redirected_packets = count_if p.redirected s.redirected_packets;
  errors = count_if p.error s.errors;
  min_packet_size =
      if ltb p.packet_size s.min_packet_size then p.packet_size else s.min_packet_size;
  max_packet_size =
      if ltb s.max_packet_size p.packet_size then p.packet_size else s.max_packet_size;
}

-- `quotient` divides two counts, `rate` gives packets per second from packets and milliseconds; both as doubles. 0 is 0.0.
unfoldable pub get_stats :
    (ℕ → ℕ → ℕ) → (ℕ → ℕ → ℕ) → ℕ → StatsCollector → StatsCollector × StatsSnapshot
get_stats quotient rate now s = (
  record s { last_stats_call = now; last_total_packets = s.total_packets },
  record {
    total_packets = s.total_packets;
    tcp_packets = s.tcp_packets;
    redirected_packets = s.redirected_packets;
    errors = s.errors;
    total_bytes = s.total_bytes;
    min_packet_size = s.min_packet_size;
    max_packet_size = s.max_packet_size;
    avg_packet_size = if ltb 0 s.total_packets then quotient s.total_bytes s.total_packets else 0;
    packets_per_second =
        if ltb 0 ((now - s.last_stats_call) / 1000000)
        then rate (sub64 s.total_packets s.last_total_packets) ((now - s.last_stats_call) / 1000000)
        else 0;
  },
)

unfoldable pub reset : ℕ → StatsCollector
reset now = record {
  total_packets = 0;
  tcp_packets = 0;
  redirected_packets = 0;
  errors = 0;
  total_bytes = 0;
  min_packet_size = u32_mod - 1;
  max_packet_size = 0;
  last_stats_call = now;
  last_total_packets = 0;
}

unfoldable pub on_packets : List PacketInfo → StatsCollector → StatsCollector
on_packets [] s = s
on_packets (p ∷ ps) s = on_packets ps (on_packet p s)
