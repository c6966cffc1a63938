-- ===== src/Relay/Bridge.antt =====
-- The bridge between a client and the proxy (infrastructure/relay/TcpRelayServer.h, OneWayRelay and
-- StartBridge). One direction is a function of what `recv` gives and of what `send` takes; the two threads
-- of a bridge are a machine whose turns a scheduler chooses. Logging is left out, and no call throws.
pub mod Stream
pub mod Schedule
mod Tests
use tcp_redirector.Prelude.{
  ℕ, zero, suc, ◌+◌, Bool, true, false, List, [], ◌∷◌, ◌++◌, Option, none, some, length, take, drop,
  ◌==◌, ◌%◌, u32_mod, add64, dec32, if◌then◌else◌,
}

-- The `recv` buffer.
abbrev pub buffer_size : ℕ
buffer_size = 131072

-- What `send` answers, given what it took before and the bytes that it is offered: the number that it
-- takes, or none for an error.
abbrev pub Send : Type 0
Send = List ℕ → List ℕ → Option ℕ

-- The inner loop over one buffer: what was delivered, and whether all of it was.
unfoldable pub send_all : Send → ℕ → List ℕ → List ℕ → List ℕ × Bool
send_all send zero delivered rest = (delivered, false)
send_all send (suc fuel) delivered [] = (delivered, true)
send_all send (suc fuel) delivered (c ∷ cs) = elim (send delivered (c ∷ cs)) [
  | none ↦ (delivered, false)
  | some n ↦ send_all send fuel (delivered ++ take n (c ∷ cs)) (drop n (c ∷ cs))
]

pub record Relayed : Type 0 where
  pub delivered : List ℕ
  pub total_bytes : ℕ
  -- Whether the source ended before any error of `send`.
  pub complete : Bool

-- The outer loop: the chunks are what `recv` gives until it returns 0 or an error. A buffer of `n` bytes
-- takes `n` rounds of `send` at most, and one more test.
unfoldable pub relay_from : Send → List ℕ → ℕ → List (List ℕ) → Relayed
unfolding send_all
relay_from send delivered total [] = record {
  delivered = delivered;
  total_bytes = total;
  complete = true;
}
relay_from send delivered total (chunk ∷ chunks) =
    let r = send_all send (suc (length chunk)) delivered chunk in
    let rest = relay_from send r.0 (add64 total (length chunk)) chunks in
    if r.1 then rest else record { delivered = r.0; total_bytes = total; complete = false }

unfoldable pub one_way_relay : Send → List (List ℕ) → Relayed
unfolding relay_from
one_way_relay send chunks = relay_from send [] 0 chunks

-- Where a thread stands: in its loop, with what it delivered and counted and what `recv` still gives; then the
-- counter is next, then `shutdown`, then the decrement of `refs`, then the two sockets if it was the last.
pub data Stage : Type 0 where
  relaying : (delivered : List ℕ) (total_bytes : ℕ) (chunks : List (List ℕ)) → Stage
  counting : (total_bytes : ℕ) → Stage
  counted half_closed closing over left : Stage

-- One round of the outer loop.
unfoldable pub relay_round : Send → List ℕ → ℕ → List (List ℕ) → Stage
unfolding send_all
relay_round send delivered total [] = counting total
relay_round send delivered total (chunk ∷ chunks) =
    let r = send_all send (suc (length chunk)) delivered chunk in
    if r.1 then relaying r.0 (add64 total (length chunk)) chunks else counting total

pub data Side : Type 0 where
  up dn : Side

-- The pair, its threads and the members of the server that they change. `closes`: how often the two
-- sockets were closed.
pub record Bridge : Type 0 where
  pub refs : ℕ
  pub up_stage : Stage
  pub dn_stage : Stage
  pub closes : ℕ
  pub total_rx_bytes : ℕ
  pub total_tx_bytes : ℕ
  pub active_pairs : ℕ

-- One step of the thread for client to proxy: a round of its loop, or one of the calls after it.
unfoldable pub turn_up : Send → Stage → Bridge → Bridge
unfolding relay_round
turn_up send (relaying delivered total chunks) b = record b {
  up_stage = relay_round send delivered total chunks;
}
turn_up send (counting total) b = record b {
  total_rx_bytes = add64 b.total_rx_bytes total;
  up_stage = counted;
}
turn_up send counted b = record b { up_stage = half_closed }
turn_up send half_closed b =
    let refs = dec32 b.refs in
    record b { refs = refs; up_stage = if refs == 0 then closing else over }
turn_up send closing b = record b { closes = b.closes + 1; up_stage = over }
turn_up send over b = b
turn_up send left b = b

-- The thread for proxy to client is the one that called StartBridge: at the end it waits for the other.
unfoldable pub turn_dn : Send → Stage → Bridge → Bridge
unfolding relay_round
turn_dn send (relaying delivered total chunks) b = record b {
  dn_stage = relay_round send delivered total chunks;
}
turn_dn send (counting total) b = record b {
  total_tx_bytes = add64 b.total_tx_bytes total;
  dn_stage = counted;
}
turn_dn send counted b = record b { dn_stage = half_closed }
turn_dn send half_closed b =
    let refs = dec32 b.refs in
    record b { refs = refs; dn_stage = if refs == 0 then closing else over }
turn_dn send closing b = record b { closes = b.closes + 1; dn_stage = over }
turn_dn send over b = elim b.up_stage [
  | over ↦ record b { dn_stage = left; active_pairs = dec32 b.active_pairs }
  | _ ↦ b
]
turn_dn send left b = b

unfoldable pub turn : Send → Send → Side → Bridge → Bridge
unfolding turn_up turn_dn
turn up_send dn_send up b = turn_up up_send b.up_stage b
turn up_send dn_send dn b = turn_dn dn_send b.dn_stage b

unfoldable pub run : Send → Send → List Side → Bridge → Bridge
unfolding turn
run up_send dn_send [] b = b
run up_send dn_send (side ∷ sides) b = run up_send dn_send sides (turn up_send dn_send side b)

-- StartBridge up to the loops, with what the two `recv` will give; without a thread the sockets are closed at once.
unfoldable pub start_bridge : Bool → ℕ → ℕ → ℕ → List (List ℕ) → List (List ℕ) → Bridge
start_bridge thread rx tx pairs up_chunks dn_chunks =
    if thread
    then record {
      refs = 2;
      up_stage = relaying [] 0 up_chunks;
      dn_stage = relaying [] 0 dn_chunks;
      closes = 0;
      total_rx_bytes = rx;
      total_tx_bytes = tx;
      active_pairs = (pairs + 1) % u32_mod;
    }
    else record {
      refs = 2;
      up_stage = over;
      dn_stage = left;
      closes = 1;
      total_rx_bytes = rx;
      total_tx_bytes = tx;
      active_pairs = dec32 ((pairs + 1) % u32_mod);
    }
