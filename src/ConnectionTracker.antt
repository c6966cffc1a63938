-- ===== src/ConnectionTracker.antt =====
-- The connections that the service shows (domain/services/ConnectionTracker.h). The lock makes each method
-- one step; times are milliseconds of a clock that does not go back. A new key of the map goes to the front:
-- the library leaves the order open, and no theorem speaks of it. A double is its bit pattern, and its
-- arithmetic is a parameter.
pub mod Records
pub mod Search
pub mod Traffic
mod Tests
use tcp_redirector.Prelude.{
  ℕ, ◌-◌, Bool, true, false, ◌||◌, List, [], ◌∷◌, Option, none, some, length, map, ltb, ◌==◌, add64,
  sub64, dec32, u32_mod, ◌%◌, keep, contains, if◌then◌else◌,
}
use tcp_redirector.Relay.Replies.{to_string}

pub data ConnectionState : Type 0 where
  redirecting connecting_to_proxy tunnel_established closing closed error : ConnectionState

pub record ConnectionRecord : Type 0 where
  pub id : ℕ
  pub pid : ℕ
  pub process_name : List ℕ
  pub process_path : List ℕ
  pub destination_host : List ℕ
  pub destination_ip : List ℕ
  pub destination_port : ℕ
  pub start_time : ℕ
  pub duration : ℕ
  pub rx_bytes : ℕ
  pub tx_bytes : ℕ
  pub proxy_enabled : Bool
  pub state : ConnectionState

pub record ServiceStats : Type 0 where
  pub active_connections : ℕ
  pub total_rx_bytes : ℕ
  pub total_tx_bytes : ℕ
  pub proxy_errors : ℕ
  pub avg_latency_ms : ℕ
  pub uptime_seconds : ℕ

abbrev pub Connections : Type 0
Connections = List (ℕ × ConnectionRecord)

-- `has_callback`: a callback is set.
pub record ConnectionTracker : Type 0 where
  pub connections : Connections
  pub stats : ServiceStats
  pub next_id : ℕ
  pub has_callback : Bool

unfoldable pub lookup : ℕ → Connections → Option ConnectionRecord
lookup key [] = none
lookup key ((i, r) ∷ m) = if i == key then some r else lookup key m

-- `m_connections[key] = r`.
unfoldable pub put : ℕ → ConnectionRecord → Connections → Connections
put key r [] = (key, r) ∷ []
put key r ((i, x) ∷ m) = let rest = put key r m in if i == key then (i, r) ∷ m else (i, x) ∷ rest

unfoldable pub delete : ℕ → Connections → Connections
delete key [] = []
delete key ((i, r) ∷ m) = let rest = delete key m in if i == key then m else (i, r) ∷ rest

unfoldable pub build_snapshot : Connections → List ConnectionRecord
build_snapshot [] = []
build_snapshot ((i, r) ∷ m) = r ∷ build_snapshot m

-- What the callback is called with, if it is: it is not for an empty snapshot.
unfoldable pub notify : ConnectionTracker → Option (List ConnectionRecord)
unfolding build_snapshot
notify t =
    if t.has_callback
    then (elim (build_snapshot t.connections) [ [] ↦ none | r ∷ rs ↦ some (r ∷ rs) ])
    else none

-- `static_cast<uint32_t>(m_connections.size())`.
abbrev pub count_active : Connections → ℕ
count_active m = length m % u32_mod

unfoldable pub add_connection :
    ConnectionRecord → ConnectionTracker → ConnectionTracker × Option (List ConnectionRecord)
unfolding put notify
add_connection r t =
    let m = put r.id r t.connections in
    let u : ConnectionTracker = record t {
      connections = m;
      stats = record t.stats { active_connections = count_active m };
    } in
    (u, notify u)

unfoldable pub is_over : ConnectionState → Bool
is_over closed = true
is_over error = true
is_over _ = false

-- The totals after an update: they grow by what is new, if the update carries bytes at all.
unfoldable pub add_traffic : ConnectionRecord → ConnectionRecord → ServiceStats → ServiceStats
add_traffic old updates stats =
    if ltb 0 updates.rx_bytes || ltb 0 updates.tx_bytes
    then record stats {
      total_rx_bytes = add64 stats.total_rx_bytes (sub64 updates.rx_bytes old.rx_bytes);
      total_tx_bytes = add64 stats.total_tx_bytes (sub64 updates.tx_bytes old.tx_bytes);
    }
    else stats

-- A closed connection stays in the map, and is counted out once.
unfoldable pub update_connection :
    ℕ
    → ℕ
    → ConnectionRecord
    → ConnectionTracker
    → ConnectionTracker × Option (List ConnectionRecord)
unfolding lookup put notify is_over add_traffic
update_connection now key updates t = elim (lookup key t.connections) [
  | none ↦ (t, none)
  | some old ↦
      let fresh : ConnectionRecord = record updates { duration = now - updates.start_time } in
      let m = put key fresh t.connections in
      let grown = add_traffic old updates t.stats in
      let u : ConnectionTracker = record t {
        connections = m;
        stats =
            if is_over updates.state
            then record grown { active_connections = dec32 (count_active m) }
            else grown;
      } in
      (u, notify u)
]

unfoldable pub remove_connection :
    ℕ → ConnectionTracker → ConnectionTracker × Option (List ConnectionRecord)
unfolding delete notify
remove_connection key t =
    let m = delete key t.connections in
    let u : ConnectionTracker = record t {
      connections = m;
      stats = record t.stats { active_connections = count_active m };
    } in
    (u, notify u)

unfoldable pub get_active_connections : ℕ → ConnectionTracker → List ConnectionRecord
unfolding build_snapshot
get_active_connections now t =
    map (λ (r : ConnectionRecord). record r { duration = now - r.start_time })
      (build_snapshot t.connections)

-- `::towlower` is the parameter.
unfoldable pub match_field : (ℕ → ℕ) → List ℕ → List ℕ → Bool
match_field lower query field = contains query (map lower field)

unfoldable pub matches : (ℕ → ℕ) → List ℕ → ConnectionRecord → Bool
unfolding match_field
matches lower query r =
    match_field lower query r.process_name
    || match_field lower query r.destination_host
    || match_field lower query (to_string r.pid)

unfoldable pub search : (ℕ → ℕ) → List ℕ → ConnectionTracker → List ConnectionRecord
unfolding matches build_snapshot
search lower [] t = build_snapshot t.connections
search lower (c ∷ cs) t = keep (matches lower (map lower (c ∷ cs))) (build_snapshot t.connections)

unfoldable pub filter_by_process : ℕ → ConnectionTracker → List ConnectionRecord
unfolding build_snapshot
filter_by_process pid t = keep (λ r. r.pid == pid) (build_snapshot t.connections)

unfoldable pub get_aggregated_stats : ConnectionTracker → ServiceStats
get_aggregated_stats t = record t.stats { active_connections = length t.connections }

unfoldable pub increment_proxy_errors : ConnectionTracker → ConnectionTracker
increment_proxy_errors t = record t {
  stats = record t.stats { proxy_errors = add64 t.stats.proxy_errors 1 };
}

-- `is_zero`: the comparison with 0.0. `average`: four fifths of the first and one fifth of the second.
unfoldable pub record_latency : (ℕ → Bool) → (ℕ → ℕ → ℕ) → ℕ → ConnectionTracker → ConnectionTracker
record_latency is_zero average ms t =
    let old = t.stats.avg_latency_ms in
    record t {
      stats = record t.stats { avg_latency_ms = if is_zero old then ms else average old ms };
    }

unfoldable pub set_uptime_seconds : ℕ → ConnectionTracker → ConnectionTracker
set_uptime_seconds seconds t = record t { stats = record t.stats { uptime_seconds = seconds } }

unfoldable pub set_on_connections_changed : Bool → ConnectionTracker → ConnectionTracker
set_on_connections_changed set t = record t { has_callback = set }

unfoldable pub generate_id : ConnectionTracker → ConnectionTracker × ℕ
generate_id t = (record t { next_id = add64 t.next_id 1 }, t.next_id)
