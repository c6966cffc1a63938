-- ===== src/Relay/Bridge/Schedule.antt =====
-- StartBridge: the two threads of a bridge, in whatever order their steps come.
use tcp_redirector.Prelude.{
  ℕ, suc, ◌+◌, ◌≤◌, ◌<◌, ◌≡◌, ◌⊎◌, Bool, true, false, List, [], ◌∷◌, ◌++◌, add64, dec32, u32_mod,
  ◌%◌, ◌-◌, ◌==◌, if◌then◌else◌, if-cases, length, arith, refl,
}
use tcp_redirector.Relay.Bridge.{
  Send, send_all, relay_from, one_way_relay, relay_round, Stage, relaying, counting, counted,
  half_closed, closing, over, left, Side, up, dn, Bridge, turn_up, turn_dn, turn, run, start_bridge,
}

-- Whether a thread still counts in `refs`, and whether it is the one that closes.
abbrev pub holds : Stage → ℕ
holds (relaying delivered total chunks) = 1
holds (counting total) = 1
holds counted = 1
holds half_closed = 1
holds _ = 0

abbrev pub closes_next : Stage → ℕ
closes_next closing = 1
closes_next _ = 0

abbrev has_counted : Stage → Bool
has_counted (relaying delivered total chunks) = false
has_counted (counting total) = false
has_counted _ = true

abbrev has_left : Stage → Bool
has_left left = true
has_left _ = false

-- What the thread adds to its counter in the end, or the default once it has.
unfoldable owed : Send → ℕ → Stage → ℕ
owed send default (relaying delivered total chunks) =
    (relay_from send delivered total chunks).total_bytes
owed send default (counting total) = total
owed send default _ = default

owed-relay_round :
    (send : Send) (default : ℕ) (delivered : List ℕ) (total : ℕ) (chunks : List (List ℕ))
    → owed send default (relay_round send delivered total chunks)
      ≡ (relay_from send delivered total chunks).total_bytes
unfolding owed relay_round relay_from
owed-relay_round send default delivered total [] = refl
owed-relay_round send default delivered total (chunk ∷ chunks) = ground arith

-- The thread is in its loop, or about to count.
abbrev InLoop : Stage → Type 0
InLoop s = (holds s ≡ 1) × (closes_next s ≡ 0) × (has_counted s ≡ false) × (has_left s ≡ false)

relay_round-InLoop :
    (send : Send) (delivered : List ℕ) (total : ℕ) (chunks : List (List ℕ))
    → InLoop (relay_round send delivered total chunks)
unfolding relay_round
relay_round-InLoop send delivered total [] = (refl, refl, refl, refl)
relay_round-InLoop send delivered total (chunk ∷ chunks) =
    if-cases InLoop (send_all send (suc (length chunk)) delivered chunk).1 (refl, refl, refl, refl)
      (refl, refl, refl, refl)

-- What holds of a bridge between its threads' steps. `rx`, `tx` and `pairs` are the counters before it.
record IsLive (up_send dn_send : Send) (up_total dn_total rx tx pairs : ℕ) (b : Bridge)
    : Type 0 where
  owners : b.refs ≡ holds b.up_stage + holds b.dn_stage
  sockets :
      b.closes + closes_next b.up_stage + closes_next b.dn_stage ≡ (if b.refs == 0 then 1 else 0)
  received : b.total_rx_bytes ≡ (if has_counted b.up_stage then add64 rx up_total else rx)
  forwarded : b.total_tx_bytes ≡ (if has_counted b.dn_stage then add64 tx dn_total else tx)
  active :
      b.active_pairs
      ≡ (if has_left b.dn_stage then dec32 ((pairs + 1) % u32_mod) else (pairs + 1) % u32_mod)
  up_owes : owed up_send up_total b.up_stage ≡ up_total
  dn_owes : owed dn_send dn_total b.dn_stage ≡ dn_total
  up_stays : has_left b.up_stage ≡ false
  waited : (has_left b.dn_stage ≡ false) ⊎ (b.up_stage ≡ over)

module _ (up_send dn_send : Send) (up_total dn_total rx tx pairs : ℕ) where
  abbrev Live : Bridge → Type 0
  Live b = IsLive up_send dn_send up_total dn_total rx tx pairs b

  turn_up-at :
      (stage : Stage) (b : Bridge) → b.up_stage ≡ stage → Live b → Live (turn_up up_send stage b)
  unfolding turn_up owed
  turn_up-at (relaying delivered total chunks) b e h =
      let loops = relay_round-InLoop up_send delivered total chunks in
      let owes = owed-relay_round up_send up_total delivered total chunks in
      ground (arith, e, loops, owes)
  turn_up-at (counting total) b e h = ground (arith, e)
  turn_up-at counted b e h = ground (arith, e)
  turn_up-at half_closed b e h = ground (arith, e)
  turn_up-at closing b e h = ground (arith, e)
  turn_up-at over b e h = ground (arith, e)
  turn_up-at left b e h = ground (arith, e)

  turn_up-Live : (b : Bridge) → Live b → Live (turn_up up_send b.up_stage b)
  turn_up-Live b h = turn_up-at b.up_stage b refl h

  turn_dn-at :
      (stage : Stage) (b : Bridge) → b.dn_stage ≡ stage → Live b → Live (turn_dn dn_send stage b)
  unfolding turn_dn owed
  turn_dn-at (relaying delivered total chunks) b e h =
      let loops = relay_round-InLoop dn_send delivered total chunks in
      let owes = owed-relay_round dn_send dn_total delivered total chunks in
      ground (arith, e, loops, owes)
  turn_dn-at (counting total) b e h = ground (arith, e)
  turn_dn-at counted b e h = ground (arith, e)
  turn_dn-at half_closed b e h = ground (arith, e)
  turn_dn-at closing b e h = ground (arith, e)
  turn_dn-at over b e h = ground (arith, e)
  turn_dn-at left b e h = ground (arith, e)

  turn_dn-Live : (b : Bridge) → Live b → Live (turn_dn dn_send b.dn_stage b)
  turn_dn-Live b h = turn_dn-at b.dn_stage b refl h

  run-Live : (sides : List Side) (b : Bridge) → Live b → Live (run up_send dn_send sides b)
  unfolding run turn
  run-Live [] b h = h
  run-Live (up ∷ sides) b h = run-Live sides (turn_up up_send b.up_stage b) (turn_up-Live b h)
  run-Live (dn ∷ sides) b h = run-Live sides (turn_dn dn_send b.dn_stage b) (turn_dn-Live b h)

module _ (up_send dn_send : Send) (rx tx pairs : ℕ) (up_chunks dn_chunks : List (List ℕ)) where
  -- The bytes that the loops count.
  abbrev up_count : ℕ
  up_count = (one_way_relay up_send up_chunks).total_bytes

  abbrev dn_count : ℕ
  dn_count = (one_way_relay dn_send dn_chunks).total_bytes

  abbrev started : Bridge
  started = start_bridge true rx tx pairs up_chunks dn_chunks

  start-Live : IsLive up_send dn_send up_count dn_count rx tx pairs started
  unfolding start_bridge one_way_relay owed
  start-Live = ground arith

  reached-Live :
      (sides : List Side)
      → IsLive up_send dn_send up_count dn_count rx tx pairs (run up_send dn_send sides started)
  reached-Live sides =
      run-Live up_send dn_send up_count dn_count rx tx pairs sides started start-Live

  -- However the steps of the two threads are ordered: the two sockets are closed at most once, and not as
  -- long as one of the threads has not given up its reference.
  pub run_closes_once :
      (sides : List Side)
      → let b = run up_send dn_send sides started in
        (b.closes ≤ 1) × ((b.closes ≡ 0) ⊎ (holds b.up_stage + holds b.dn_stage ≡ 0))
  run_closes_once sides =
      let h = reached-Live sides in
      let owners = h.owners in let sockets = h.sockets in ground (arith, owners, sockets)

-- The steps of a thread in a schedule.
unfoldable pub turns : Side → List Side → ℕ
turns s [] = 0
turns up (up ∷ sides) = suc (turns up sides)
turns up (dn ∷ sides) = turns up sides
turns dn (up ∷ sides) = turns dn sides
turns dn (dn ∷ sides) = suc (turns dn sides)

-- The steps that a thread still has before it.
unfoldable steps_left : Stage → ℕ
steps_left (relaying delivered total chunks) = 5 + length chunks
steps_left (counting total) = 4
steps_left counted = 3
steps_left half_closed = 2
steps_left closing = 1
steps_left _ = 0

relay_round-steps_left :
    (send : Send) (delivered : List ℕ) (total : ℕ) (chunks : List (List ℕ))
    → steps_left (relay_round send delivered total chunks) ≤ 4 + length chunks
unfolding steps_left relay_round
relay_round-steps_left send delivered total [] = omega arith
relay_round-steps_left send delivered total (chunk ∷ chunks) = ground arith

turn_up-steps_left_at :
    (send : Send) (stage : Stage) (b : Bridge)
    → let c = turn_up send stage b in
      b.up_stage ≡ stage
      → (steps_left c.up_stage ≤ steps_left stage - 1) × (c.dn_stage ≡ b.dn_stage)
unfolding turn_up steps_left
turn_up-steps_left_at send (relaying delivered total chunks) b e =
    let l : steps_left (relay_round send delivered total chunks) ≤ 5 + length chunks - 1 =
      omega (arith, relay_round-steps_left send delivered total chunks) in
    (l, refl)
turn_up-steps_left_at send (counting total) b e = ground (arith, e)
turn_up-steps_left_at send counted b e = ground (arith, e)
turn_up-steps_left_at send half_closed b e = ground (arith, e)
turn_up-steps_left_at send closing b e = ground (arith, e)
turn_up-steps_left_at send over b e = ground (arith, e)
turn_up-steps_left_at send left b e = ground (arith, e)

turn_up-steps_left :
    (send : Send) (b : Bridge)
    → let c = turn_up send b.up_stage b in
      (steps_left c.up_stage ≤ steps_left b.up_stage - 1) × (c.dn_stage ≡ b.dn_stage)
turn_up-steps_left send b = turn_up-steps_left_at send b.up_stage b refl

turn_dn-steps_left_at :
    (send : Send) (stage : Stage) (b : Bridge)
    → let c = turn_dn send stage b in
      b.dn_stage ≡ stage
      → (steps_left c.dn_stage ≤ steps_left stage - 1) × (c.up_stage ≡ b.up_stage)
unfolding turn_dn steps_left
turn_dn-steps_left_at send (relaying delivered total chunks) b e =
    let l : steps_left (relay_round send delivered total chunks) ≤ 5 + length chunks - 1 =
      omega (arith, relay_round-steps_left send delivered total chunks) in
    (l, refl)
turn_dn-steps_left_at send (counting total) b e = ground (arith, e)
turn_dn-steps_left_at send counted b e = ground (arith, e)
turn_dn-steps_left_at send half_closed b e = ground (arith, e)
turn_dn-steps_left_at send closing b e = ground (arith, e)
turn_dn-steps_left_at send over b e = ground (arith, e)
turn_dn-steps_left_at send left b e = ground (arith, e)

turn_dn-steps_left :
    (send : Send) (b : Bridge)
    → let c = turn_dn send b.dn_stage b in
      (steps_left c.dn_stage ≤ steps_left b.dn_stage - 1) × (c.up_stage ≡ b.up_stage)
turn_dn-steps_left send b = turn_dn-steps_left_at send b.dn_stage b refl

run-steps_left :
    (up_send dn_send : Send) (sides : List Side) (b : Bridge)
    → let c = run up_send dn_send sides b in
      (steps_left c.up_stage ≤ steps_left b.up_stage - turns up sides)
      × (steps_left c.dn_stage ≤ steps_left b.dn_stage - turns dn sides)
unfolding run turn turns
run-steps_left up_send dn_send [] b = (omega arith, omega arith)
run-steps_left up_send dn_send (up ∷ sides) b =
    let (r, same) = turn_up-steps_left up_send b in
    let (i, j) = run-steps_left up_send dn_send sides (turn_up up_send b.up_stage b) in
    (omega arith, ground (arith, j, same))
run-steps_left up_send dn_send (dn ∷ sides) b =
    let (r, same) = turn_dn-steps_left dn_send b in
    let (i, j) = run-steps_left up_send dn_send sides (turn_dn dn_send b.dn_stage b) in
    (ground (arith, i, same), omega arith)

run-append :
    (up_send dn_send : Send) (xs ys : List Side) (b : Bridge)
    → run up_send dn_send (xs ++ ys) b ≡ run up_send dn_send ys (run up_send dn_send xs b)
unfolding run
run-append up_send dn_send [] ys b = refl
run-append up_send dn_send (x ∷ xs) ys b =
    run-append up_send dn_send xs ys (turn up_send dn_send x b)

module _ (up_send dn_send : Send) (rx tx pairs : ℕ) (up_chunks dn_chunks : List (List ℕ)) where
  -- The bridge is over: the sockets are closed, the counters have the bytes that the loops count, and the
  -- number of active pairs is what it was.
  abbrev pub IsOver : Bridge → Type 0
  IsOver b =
      (b.closes ≡ 1)
      × (b.total_rx_bytes ≡ add64 rx (one_way_relay up_send up_chunks).total_bytes)
      × (b.total_tx_bytes ≡ add64 tx (one_way_relay dn_send dn_chunks).total_bytes)
      × (b.active_pairs ≡ pairs)

  last_turn :
      (b : Bridge)
      → IsLive up_send dn_send
          (one_way_relay up_send up_chunks).total_bytes
          (one_way_relay dn_send dn_chunks).total_bytes
          rx
          tx
          pairs
          b
      → steps_left b.up_stage ≡ 0
      → steps_left b.dn_stage ≡ 0
      → pairs < u32_mod
      → IsOver (turn_dn dn_send b.dn_stage b)
  unfolding turn_dn steps_left
  last_turn b h u d l = ground arith

  -- However the steps of the two threads are ordered, a step being a round of the loop or one call after it:
  -- once each thread has had five steps more than `recv` gives it buffers, and the thread that called
  -- StartBridge one more, the bridge is over. Its sockets are closed exactly once, both counters have
  -- grown by the bytes that their OneWayRelay counts, modulo 2^64, and the number of active pairs is
  -- what it was before.
  pub run-IsOver :
      (sides : List Side)
      → 5 + length up_chunks ≤ turns up sides
      → 5 + length dn_chunks ≤ turns dn sides
      → pairs < u32_mod
      → IsOver (
          run up_send dn_send
            (sides ++ dn ∷ [])
            (start_bridge true rx tx pairs up_chunks dn_chunks))
  unfolding run turn start_bridge steps_left
  run-IsOver sides u d l =
      let b = start_bridge true rx tx pairs up_chunks dn_chunks in
      let h = reached-Live up_send dn_send rx tx pairs up_chunks dn_chunks sides in
      let (i, j) = run-steps_left up_send dn_send sides b in
      rw (run-append up_send dn_send sides (dn ∷ []) b)
        (last_turn (run up_send dn_send sides b) h (omega arith) (omega arith) l)
