-- ===== src/ConnectionTracker/Traffic.antt =====
-- ConnectionTracker.h: the total of bytes over the updates of one connection.
use tcp_redirector.ConnectionTracker.Records.{lookup-put}
use tcp_redirector.ConnectionTracker.{
  ConnectionRecord, ConnectionTracker, ServiceStats, lookup, add_traffic, is_over,
  update_connection,
}
use tcp_redirector.Prelude.{
  ℕ, ◌-◌, ◌<◌, ◌≡◌, ◌⊎◌, List, [], ◌∷◌, some, add64, sub64, u64_mod, All, arith, refl, ==_refl,
}

-- Updates of one key, with the times at which they come.
unfoldable pub update_all : ℕ → List (ℕ × ConnectionRecord) → ConnectionTracker → ConnectionTracker
update_all key [] t = t
update_all key ((now, updates) ∷ us) t = update_all key us (update_connection now key updates t).0

-- The record of the last update, or the one before the first.
unfoldable pub last_update : ConnectionRecord → List (ℕ × ConnectionRecord) → ConnectionRecord
last_update old [] = old
last_update old ((now, updates) ∷ us) = last_update updates us

-- Both counts are 64-bit words, and one at least is not zero.
abbrev pub HasTraffic : ConnectionRecord → Type 0
HasTraffic r =
    (r.rx_bytes < u64_mod) × (r.tx_bytes < u64_mod) × ((0 < r.rx_bytes) ⊎ (0 < r.tx_bytes))

add_traffic_lem :
    (old updates : ConnectionRecord) (stats : ServiceStats)
    → HasTraffic updates
    → let grown = add_traffic old updates stats in
      (grown.total_rx_bytes ≡ add64 stats.total_rx_bytes (sub64 updates.rx_bytes old.rx_bytes))
      × (grown.total_tx_bytes ≡ add64 stats.total_tx_bytes (sub64 updates.tx_bytes old.tx_bytes))
unfolding add_traffic
add_traffic_lem old updates stats h = ground (arith, h.2)

update_once :
    (now key : ℕ) (old updates : ConnectionRecord) (t : ConnectionTracker)
    → lookup key t.connections ≡ some old
    → let u = (update_connection now key updates t).0 in
      let grown = add_traffic old updates t.stats in
      (u.stats.total_rx_bytes ≡ grown.total_rx_bytes)
      × (u.stats.total_tx_bytes ≡ grown.total_tx_bytes)
      × (lookup key u.connections ≡ some (record updates { duration = now - updates.start_time }))
unfolding update_connection is_over
update_once now key old updates t f =
    let fresh : ConnectionRecord = record updates { duration = now - updates.start_time } in
    let stored = lookup-put key key fresh t.connections in
    simp (f, update_connection) (ground (arith, stored, ==_refl key))

-- Only the bytes of the record before the first update matter.
last_update_bytes :
    (us : List (ℕ × ConnectionRecord)) (a b : ConnectionRecord)
    → a.rx_bytes ≡ b.rx_bytes
    → a.tx_bytes ≡ b.tx_bytes
    → ((last_update a us).rx_bytes ≡ (last_update b us).rx_bytes)
      × ((last_update a us).tx_bytes ≡ (last_update b us).tx_bytes)
unfolding last_update
last_update_bytes [] a b e f = (e, f)
last_update_bytes ((now, updates) ∷ us) a b e f = (refl, refl)

-- Let a key stand for a record, and let it be updated any number of times, each time with some bytes; all
-- counts are 64-bit words. Then both totals have grown by the difference of the last record's bytes and
-- those of the record before the first update, modulo 2^64, however the counts went in between.
pub update_all_lem :
    (key : ℕ) (us : List (ℕ × ConnectionRecord)) (old : ConnectionRecord) (t : ConnectionTracker)
    → lookup key t.connections ≡ some old
    → old.rx_bytes < u64_mod
    → old.tx_bytes < u64_mod
    → t.stats.total_rx_bytes < u64_mod
    → t.stats.total_tx_bytes < u64_mod
    → All (λ u. HasTraffic u.1) us
    → let u = update_all key us t in
      let last = last_update old us in
      (u.stats.total_rx_bytes ≡ add64 t.stats.total_rx_bytes (sub64 last.rx_bytes old.rx_bytes))
      × (u.stats.total_tx_bytes ≡ add64 t.stats.total_tx_bytes (sub64 last.tx_bytes old.tx_bytes))
unfolding update_all last_update
update_all_lem key [] old t f r x tr tx h = (omega arith, omega arith)
update_all_lem key ((now, updates) ∷ us) old t f r x tr tx h =
    let fresh : ConnectionRecord = record updates { duration = now - updates.start_time } in
    let u = (update_connection now key updates t).0 in
    let (rx, ty, stored) = update_once now key old updates t f in
    let (grown_rx, grown_tx) = add_traffic_lem old updates t.stats h.0 in
    let (more_rx, more_tx) =
      update_all_lem key us fresh u stored h.0.0 h.0.1 (omega arith) (omega arith) h.1 in
    let same = last_update_bytes us fresh updates refl refl in
    (omega (arith, same), omega (arith, same))
