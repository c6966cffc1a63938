-- ===== src/Relay/Bridge/Tests.antt =====
-- StartBridge and OneWayRelay: a bridge at work.
use tcp_redirector.Prelude.{
  ℕ, ◌+◌, ◌≤◌, ◌<◌, ◌≡◌, true, List, [], ◌∷◌, ◌++◌, none, some, All, length, arith, refl, ltb,
  u64_mod, if◌then◌else◌,
}
use tcp_redirector.Relay.Bridge.{
  Send, send_all, relay_from, one_way_relay, Side, up, dn, run, start_bridge,
}
use tcp_redirector.Relay.Bridge.Schedule.{turns, IsOver, run-IsOver}
use tcp_redirector.Relay.Bridge.Stream.{Takes, IsBuffer, concat, Forwarded, one_way_relay-Forwarded}

-- A socket that takes two bytes at a time and fails after five.
abbrev narrow : Send
narrow before offered =
    if ltb (length before) 5 then some (if ltb (length offered) 2 then 1 else 2) else none

abbrev chunks : List (List ℕ)
chunks = (1 ∷ 2 ∷ 3 ∷ []) ∷ (4 ∷ 5 ∷ 6 ∷ 7 ∷ []) ∷ []

-- The second buffer is cut, and the counter has only the first.
narrow_run : (one_way_relay narrow chunks).delivered ≡ 1 ∷ 2 ∷ 3 ∷ 4 ∷ 5 ∷ []
unfolding one_way_relay relay_from send_all
narrow_run = refl

narrow_total : (one_way_relay narrow chunks).total_bytes ≡ 3
unfolding one_way_relay relay_from send_all
narrow_total = refl

narrow-Takes : Takes narrow
narrow-Takes before offered n h e = ground arith

chunks-IsBuffer : All IsBuffer chunks
unfolding IsBuffer
chunks-IsBuffer = ((omega arith, omega arith), ((omega arith, omega arith), tt))

chunks_fit : length (concat chunks) < u64_mod
unfolding concat
chunks_fit = omega arith

one_way_relay-Forwarded_example : Forwarded narrow [] (concat chunks) (one_way_relay narrow chunks)
one_way_relay-Forwarded_example =
    one_way_relay-Forwarded narrow chunks narrow-Takes chunks-IsBuffer chunks_fit

abbrev order : List Side
order = up ∷ up ∷ dn ∷ dn ∷ dn ∷ up ∷ up ∷ dn ∷ dn ∷ up ∷ dn ∷ dn ∷ up ∷ dn ∷ up ∷ up ∷ up ∷ dn ∷ []

enough_up : 5 + length chunks ≤ turns up order
unfolding turns
enough_up = omega arith

enough_dn : 5 + length chunks ≤ turns dn order
unfolding turns
enough_dn = omega arith

run-IsOver_example :
    IsOver narrow narrow 10 20 1 chunks chunks
      (run narrow narrow (order ++ dn ∷ []) (start_bridge true 10 20 1 chunks chunks))
run-IsOver_example =
    run-IsOver narrow narrow 10 20 1 chunks chunks order enough_up enough_dn (omega arith)
