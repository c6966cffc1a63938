-- ===== src/Capture/Step.antt =====
-- WinDivertCapture.cpp: what the capture loop does with one TCP packet. The addresses and ports of a
-- packet are in host order. The result is `none` if `wcscpy_s` ends the process in a call of the table.
use tcp_redirector.Prelude.{
  ℕ, ◌/◌, ◌^◌, Bool, true, false, not, ◌&&◌, ◌||◌, List, [], ◌∷◌, Option, none, some, ltb, ◌==◌,
  dec32, add64, if◌then◌else◌,
}
use tcp_redirector.ConnectionTable.{
  ConnectionTable, ConnectionInfo, add, get, is_tracked, remove, set_process_info, add_bytes,
  get_info,
}
use tcp_redirector.Capture.Ports.{
  Ports, is_port_decided, is_port_direct, set_port_direct, set_port_decided, clear_port,
}
use tcp_redirector.Capture.Process.{
  Action, Os, PidCacheEntry, Settings, Verdict, check_process_rule, is_empty,
}

-- The headers that the loop reads and writes, the length of the packet, and the direction of its address.
pub record Packet : Type 0 where
  pub src_addr : ℕ
  pub dst_addr : ℕ
  pub src_port : ℕ
  pub dst_port : ℕ
  pub fin : Bool
  pub rst : Bool
  pub recv_len : ℕ
  pub outbound : Bool

pub record Capture : Type 0 where
  pub ports : Ports
  -- `none` for a null `m_connTable`.
  pub conn_table : Option ConnectionTable
  pub target_pid : ℕ
  pub pid_cache : List PidCacheEntry
  pub packets_captured : ℕ
  pub redirects_emitted : ℕ
  pub total_rx_bytes : ℕ
  pub total_tx_bytes : ℕ
  pub active_connections : ℕ

-- A call of the connection monitor; a record that is added is in the state Redirecting.
pub data MonitorCall : Type 0 where
  added : (id pid : ℕ) (process_name : List ℕ) (destination_port : ℕ) → MonitorCall
  removed : ℕ → MonitorCall

-- The state after the packet, what was sent, whether its checksums were computed, the monitor's calls.
pub record Outcome : Type 0 where
  pub state : Capture
  pub sent : Option Packet
  pub checksums : Bool
  pub calls : List MonitorCall

unfoldable pub is_localhost : ℕ → Bool
is_localhost ip = (ip / 2 ^ 24) == 127

unfoldable pub is_localhost_pair : Packet → Bool
unfolding is_localhost
is_localhost_pair p = is_localhost p.src_addr && is_localhost p.dst_addr

abbrev pub swap_ip_and_direction : Packet → Packet
swap_ip_and_direction p = record p {
  dst_addr = p.src_addr;
  src_addr = p.dst_addr;
  outbound = false;
}

-- `SwapIpAndDirection` unless both addresses are local.
unfoldable pub turn : Packet → Packet
unfolding is_localhost_pair
turn p = if is_localhost_pair p then p else swap_ip_and_direction p

unfoldable pub modify_dst_to_relay : ℕ → Packet → Packet
unfolding turn
modify_dst_to_relay relay_port p = turn (record p { dst_port = relay_port })

module _ (size : ℕ) where
  unfoldable pub restore_from_relay : ConnectionTable → Packet → Packet
  unfolding turn
  restore_from_relay t p = elim (get size t p.dst_port) [
    | none ↦ turn p
    | some (ip, port) ↦ turn (record p { src_port = port })
  ]

abbrev pub closing : Packet → Bool
closing p = p.fin || p.rst

abbrev pub send : Capture → Packet → Option Outcome
send s p = some (record { state = s; sent = some p; checksums = false; calls = [] })

abbrev pub send_modified : Capture → Packet → List MonitorCall → Option Outcome
send_modified s p calls =
    some (record { state = s; sent = some p; checksums = true; calls = calls })

abbrev pub drop_packet : Capture → Option Outcome
drop_packet s = some (record { state = s; sent = none; checksums = false; calls = [] })

-- The totals take the counters of a connection that closes.
abbrev pub credit : Capture → Option ConnectionInfo → Capture
credit s none = s
credit s (some info) = record s {
  total_rx_bytes = add64 s.total_rx_bytes info.bytes_up;
  total_tx_bytes = add64 s.total_tx_bytes info.bytes_down;
}

module _ (size : ℕ) (c : Settings) where
  -- A connection of the port is summed up and removed, and its port forgotten.
  unfoldable pub close_port : Capture → ConnectionTable → ℕ → Option Capture
  close_port s t port = elim (get_info size t port) [
    | none ↦ none
    | some info ↦ some (record (credit s info) {
      conn_table = some (remove size t port);
      ports = clear_port s.ports port;
    })
  ]

  -- Step 2: a packet of the relay.
  unfoldable pub from_relay : Capture → ConnectionTable → Packet → Option Outcome
  unfolding close_port
  from_relay s t p = elim (get size t p.dst_port) [
    | none ↦ send s p
    | some _ ↦
        let restored = restore_from_relay size t p in
        let counted = add_bytes size t p.dst_port 0 p.recv_len in
        if closing p
        then elim (close_port s counted p.dst_port) [
          | none ↦ none
          | some closed ↦ send_modified closed restored []
        ]
        else send_modified (record s { conn_table = some counted }) restored []
  ]

  -- `m_activeConnections`, and the monitor's call, when the client closes.
  abbrev pub released : Capture → Capture
  released s = record s {
    active_connections =
        if ltb 0 s.active_connections then dec32 s.active_connections else s.active_connections;
  }

  -- Step 3: a packet of a tracked port.
  unfoldable pub to_relay : Capture → ConnectionTable → Packet → Option Outcome
  unfolding close_port modify_dst_to_relay
  to_relay s t p =
      let counted = add_bytes size t p.src_port p.recv_len 0 in
      let redirected = modify_dst_to_relay c.relay_port p in
      if closing p
      then elim (close_port s counted p.src_port) [
        | none ↦ none
        | some closed ↦
            send_modified (released closed) redirected
              (if c.monitored then removed p.src_port ∷ [] else [])
      ]
      else send_modified (record s { conn_table = some counted }) redirected []

  -- The table with the connection, and with its process if that is known.
  unfoldable pub track : ConnectionTable → Packet → Verdict → Option ConnectionTable
  unfolding is_empty
  track t p v =
      let u = add size t p.src_port p.src_addr p.dst_addr p.dst_port 0 in
      if not (v.pid == 0) && not (is_empty v.path)
      then set_process_info size u p.src_port v.pid (some v.path)
      else some u

  -- Step 4: a packet of an untracked port, after `CheckProcessRule`.
  unfoldable pub decide : Capture → ConnectionTable → Packet → Verdict → Option Outcome
  unfolding track modify_dst_to_relay
  decide s t p v = elim v.action [
    | Action.direct ↦ send (record s { ports = set_port_direct s.ports p.src_port }) p
    | Action.block ↦ drop_packet (record s { ports = set_port_decided s.ports p.src_port })
    | Action.proxy ↦ elim (track t p v) [
      | none ↦ none
      | some u ↦
          send_modified
            (record s {
              conn_table = some u;
              ports = set_port_decided s.ports p.src_port;
              redirects_emitted = add64 s.redirects_emitted 1;
            })
            (modify_dst_to_relay c.relay_port p)
            (if c.monitored then added p.src_port v.pid v.path p.dst_port ∷ [] else [])
    ]
  ]

  unfoldable pub untracked : Capture → ConnectionTable → Os → Packet → Option Outcome
  unfolding decide
  untracked s t os p =
      let v = check_process_rule c os s.target_pid s.pid_cache p.src_port in
      decide (record s { target_pid = v.target_pid; pid_cache = v.pid_cache }) t p v

  -- Steps 2 to 4, with a table.
  unfoldable pub dispatch : Capture → ConnectionTable → Os → Packet → Option Outcome
  unfolding from_relay to_relay untracked
  dispatch s t os p =
      if p.src_port == c.relay_port
      then from_relay s t p
      else if is_tracked size t p.src_port
      then to_relay s t p
      else if p.outbound
      then untracked s t os p
      else send s p

  unfoldable pub route : Capture → Os → Packet → Option Outcome
  unfolding dispatch
  route s os p = elim s.conn_table [ none ↦ send s p | some t ↦ dispatch s t os p ]

  -- The body of the loop from the count of the packet on; step 1 is the cached decision.
  unfoldable pub capture_packet : Capture → Os → Packet → Option Outcome
  unfolding route
  capture_packet s0 os p =
      let s = record s0 { packets_captured = add64 s0.packets_captured 1 } in
      let forgotten = record s { ports = clear_port s.ports p.src_port } in
      let seen = if closing p then forgotten else s in
      if is_port_decided s.ports p.src_port
      then (if is_port_direct seen.ports p.src_port then send seen p else route seen os p)
      else route s os p
