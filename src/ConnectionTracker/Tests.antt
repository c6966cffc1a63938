-- ===== src/ConnectionTracker/Tests.antt =====
-- ConnectionTracker.h: a tracker at work.
use tcp_redirector.ConnectionTracker.Records.{
  IsDistinct, Call, add_call, update_call, remove_call, error_call, run, expected_all, run-lookup,
}
use tcp_redirector.ConnectionTracker.Traffic.{HasTraffic}
use tcp_redirector.ConnectionTracker.{
  ConnectionRecord, ConnectionState, ConnectionTracker, lookup, search, build_snapshot, matches,
  match_field,
}
use tcp_redirector.Prelude.{
  ℕ, ◌≡◌, true, List, [], ◌∷◌, some, All, arith, refl, inl, contains, starts_with,
}
use tcp_redirector.Relay.Replies.{to_string, digits}

abbrev conn : ℕ → ℕ → ℕ → ConnectionRecord
conn id rx tx = record {
  id = id;
  pid = 42;
  process_name = b'a' ∷ b'b' ∷ [];
  process_path = [];
  destination_host = b'h' ∷ [];
  destination_ip = [];
  destination_port = 443;
  start_time = 5;
  duration = 0;
  rx_bytes = rx;
  tx_bytes = tx;
  proxy_enabled = true;
  state = ConnectionState.redirecting;
}

abbrev tracker : ConnectionTracker
tracker = record {
  connections = (7, conn 7 10 20) ∷ [];
  stats = record {
    active_connections = 1;
    total_rx_bytes = 100;
    total_tx_bytes = 200;
    proxy_errors = 0;
    avg_latency_ms = 0;
    uptime_seconds = 0;
  };
  next_id = 1;
  has_callback = true;
}

tracker-IsDistinct : IsDistinct tracker.connections
unfolding lookup
tracker-IsDistinct = (refl, tt)

abbrev calls : List Call
calls = add_call (conn 8 0 0) ∷ update_call 9 7 (conn 7 11 22) ∷ error_call ∷ remove_call 8 ∷ []

found_by_pid : search (λ c. c) (b'4' ∷ []) tracker ≡ conn 7 10 20 ∷ []
unfolding search build_snapshot matches match_field contains starts_with to_string digits
found_by_pid = refl

run-lookup_example :
    (lookup 7 (run calls tracker).connections ≡ expected_all calls 7 (lookup 7 tracker.connections))
    × IsDistinct (run calls tracker).connections
run-lookup_example = run-lookup calls 7 tracker tracker-IsDistinct

abbrev updates : List (ℕ × ConnectionRecord)
updates = (6, conn 7 50 30) ∷ (9, conn 7 60 90) ∷ []

tracker-knows : lookup 7 tracker.connections ≡ some (conn 7 10 20)
unfolding lookup
tracker-knows = refl

updates-HasTraffic : All (λ u. HasTraffic u.1) updates
updates-HasTraffic = (
  (omega arith, omega arith, inl (omega arith)),
  ((omega arith, omega arith, inl (omega arith)), tt),
)
