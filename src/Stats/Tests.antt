-- ===== src/Stats/Tests.antt =====
-- The counters of packets on small inputs.
use tcp_redirector.Prelude.{ℕ, ◌≡◌, ◌⊎◌, Bool, true, false, List, [], ◌∷◌, map, refl, ◌*◌, ◌/◌, All}
use tcp_redirector.Stats.{PacketInfo, on_packet, on_packets, get_stats, reset}
use tcp_redirector.Stats.Loop.{
  waiting, better, advance, advance_at, run, IsAmong, IsDone, NoneBetter,
}
use tcp_redirector.Stats.Extreme.{run_best}

abbrev small : PacketInfo
small = record { packet_size = 40; protocol = 6; redirected = true; error = false; flow_id = 1 }

abbrev large : PacketInfo
large = record { packet_size = 1500; protocol = 6; redirected = false; error = true; flow_id = 2 }

min_of_both : (on_packets (small ∷ large ∷ []) (reset 5)).min_packet_size ≡ 40
unfolding reset on_packets on_packet
min_of_both = refl

average_of_both :
    (get_stats ◌/◌
      (λ packets ms. packets * 1000 / ms)
      2000000000
      (on_packets (small ∷ large ∷ []) (reset 0))).1.avg_packet_size
    ≡ 770
unfolding reset on_packets on_packet get_stats
average_of_both = refl

rate_of_both :
    (get_stats ◌/◌
      (λ packets ms. packets * 1000 / ms)
      2000000000
      (on_packets (small ∷ large ∷ []) (reset 0))).1.packets_per_second
    ≡ 1
unfolding reset on_packets on_packet get_stats
rate_of_both = refl

-- Both threads load before either stores: the second exchange fails once.
abbrev turns : List (ℕ × Bool)
turns = (0, false) ∷ (1, false) ∷ (0, false) ∷ (1, false) ∷ (1, true) ∷ (1, false) ∷ []

turns-IsDone : All IsDone (run true turns (4294967295, map waiting (1500 ∷ 40 ∷ []))).1
unfolding run advance_at advance better IsDone
turns-IsDone = (tt, (tt, tt))

run_best_example :
    let last = (run true turns (4294967295, map waiting (1500 ∷ 40 ∷ []))).0 in
    ((last ≡ 4294967295) ⊎ IsAmong last (1500 ∷ 40 ∷ [])) × NoneBetter true last (1500 ∷ 40 ∷ [])
run_best_example = run_best true turns 4294967295 (1500 ∷ 40 ∷ []) turns-IsDone
