-- ===== src/Stats/Counting.antt =====
-- StatsCollector.cpp: what the counters say after any packets.
use tcp_redirector.Prelude.{
  ℕ, ◌+◌, ◌<◌, ◌≡◌, ◌%◌, Bool, List, [], ◌∷◌, length, add64, u64_mod, ◌==◌, if◌then◌else◌, arith,
}
use tcp_redirector.Stats.{PacketInfo, StatsCollector, on_packet, on_packets, reset}

unfoldable pub bytes_of : List PacketInfo → ℕ
bytes_of [] = 0
bytes_of (p ∷ ps) = p.packet_size + bytes_of ps

-- How many packets pass a test.
unfoldable pub count : (PacketInfo → Bool) → List PacketInfo → ℕ
count test [] = 0
count test (p ∷ ps) = (if test p then 1 else 0) + count test ps

totals :
    (ps : List PacketInfo) (s : StatsCollector)
    → s.total_packets < u64_mod
    → s.total_bytes < u64_mod
    → s.tcp_packets < u64_mod
    → s.redirected_packets < u64_mod
    → s.errors < u64_mod
    → let t = on_packets ps s in
      (t.total_packets ≡ add64 s.total_packets (length ps))
      × (t.total_bytes ≡ add64 s.total_bytes (bytes_of ps))
      × (t.tcp_packets ≡ add64 s.tcp_packets (count (λ p. p.protocol == 6) ps))
      × (t.redirected_packets ≡ add64 s.redirected_packets (count (λ p. p.redirected) ps))
      × (t.errors ≡ add64 s.errors (count (λ p. p.error) ps))
unfolding on_packets on_packet bytes_of count
totals [] s a b c d e = (omega arith, omega arith, omega arith, omega arith, omega arith)
totals (p ∷ ps) s a b c d e = ground (
  arith,
  totals ps (on_packet p s) (omega arith) (omega arith) (ground arith) (ground arith)
      (ground arith),
)

-- After a Reset and any packets the five counters are the numbers of the packets, of those of TCP, of those
-- redirected and of those with an error, and the sum of their sizes, each modulo 2^64.
pub on_packets-reset :
    (now : ℕ) (ps : List PacketInfo)
    → let t = on_packets ps (reset now) in
      (t.total_packets ≡ length ps % u64_mod)
      × (t.total_bytes ≡ bytes_of ps % u64_mod)
      × (t.tcp_packets ≡ count (λ p. p.protocol == 6) ps % u64_mod)
      × (t.redirected_packets ≡ count (λ p. p.redirected) ps % u64_mod)
      × (t.errors ≡ count (λ p. p.error) ps % u64_mod)
unfolding reset
on_packets-reset now ps =
    let (a, b, c, d, e) =
      totals ps (reset now) (omega arith) (omega arith) (omega arith) (omega arith) (omega arith) in
    (omega arith, omega arith, omega arith, omega arith, omega arith)
