-- ===== src/Capture/Direct.antt =====
-- WinDivertCapture.cpp: the cached decision for Direct, and its end.
use tcp_redirector.Prelude.{
  ℕ, ◌<◌, ◌≡◌, ◌≢◌, refl, ap, ◌∙◌, true, false, [], some, ◌==◌, ==_refl, add64, arith,
}
use tcp_redirector.ConnectionTable.{ConnectionTable, is_tracked}
use tcp_redirector.Capture.Ports.{
  Ports, HasSize, ports_lem, clear_port-HasSize, port_count, is_port_decided, is_port_direct,
  set_port_direct, clear_port,
}
use tcp_redirector.Capture.Process.{Action, Os, Settings, check_process_rule}
use tcp_redirector.Capture.Step.{
  Capture, Packet, Outcome, closing, untracked, decide, dispatch, route, capture_packet,
}
use tcp_redirector.Capture.Redirection.{route-table, capture_packet-route}
use tcp_redirector.Capture.Routes.{capture_packet-direct}

-- The port is decided as Direct.
abbrev pub IsDirect : Ports → ℕ → Type 0
IsDirect b port = (is_port_decided b port ≡ true) × (is_port_direct b port ≡ true)

set_port_direct-IsDirect :
    (b : Ports) (p : ℕ) → HasSize b → p < port_count → IsDirect (set_port_direct b p) p
set_port_direct-IsDirect b p z h =
    let l = ports_lem b p p z h in (l.0 ∙ rw (==_refl p) refl, l.1 ∙ rw (==_refl p) refl)

-- A packet that the check finds Direct is sent as it is, and its port is then decided as Direct.
dispatch-direct :
    (size : ℕ) (c : Settings) (s : Capture) (t : ConnectionTable) (os : Os) (p : Packet)
    → s.conn_table ≡ some t
    → HasSize s.ports
    → p.src_port < port_count
    → p.src_port ≢ c.relay_port
    → is_tracked size t p.src_port ≡ false
    → p.outbound ≡ true
    → (check_process_rule c os s.target_pid s.pid_cache p.src_port).action ≡ Action.direct
    → (o : Outcome) × (route size c s os p ≡ some o)
      × (o.sent ≡ some p)
      × IsDirect o.state.ports p.src_port
unfolding dispatch untracked decide
dispatch-direct size c s t os p h z b other free out direct =
    let v = check_process_rule c os s.target_pid s.pid_cache p.src_port in
    let there : (p.src_port == c.relay_port) ≡ false = ground (arith, other) in
    (
      record {
        state = record s {
          target_pid = v.target_pid;
          pid_cache = v.pid_cache;
          ports = set_port_direct s.ports p.src_port;
        };
        sent = some p;
        checksums = false;
        calls = [];
      },
      route-table size c s t os p h
          ∙ simp (there, free, out, direct, dispatch, untracked, decide) refl,
      refl,
      set_port_direct-IsDirect s.ports p.src_port z b,
    )

-- The first packet, outbound and of a port that is not the port of the relay and not tracked, with
-- a table and bitmaps of their full size, that is no FIN or RST and whose port is not marked as
-- Direct, is sent as it is if the check finds it Direct; and so is then any packet of the port that
-- is no FIN or RST, whatever the check would say by then.
pub direct-sticks :
    (size : ℕ) (c : Settings) (s : Capture) (t : ConnectionTable) (os os' : Os) (p q : Packet)
    → s.conn_table ≡ some t
    → HasSize s.ports
    → p.src_port < port_count
    → is_port_direct s.ports p.src_port ≡ false
    → p.src_port ≢ c.relay_port
    → is_tracked size t p.src_port ≡ false
    → p.outbound ≡ true
    → closing p ≡ false
    → closing q ≡ false
    → q.src_port ≡ p.src_port
    → (check_process_rule c os s.target_pid s.pid_cache p.src_port).action ≡ Action.direct
    → (o o' : Outcome) × (capture_packet size c s os p ≡ some o)
      × (o.sent ≡ some p)
      × (capture_packet size c o.state os' q ≡ some o')
      × (o'.sent ≡ some q)
direct-sticks size c s t os os' p q h z b f other free out cp cq same direct =
    let s1 = record s { packets_captured = add64 s.packets_captured 1 } in
    let (o, e, sent, is) = dispatch-direct size c s1 t os p h z b other free out direct in
    (
      o,
      record {
        state = record o.state { packets_captured = add64 o.state.packets_captured 1 };
        sent = some q;
        checksums = false;
        calls = [];
      },
      capture_packet-route size c s os p cp f ∙ e,
      sent,
      capture_packet-direct size c o.state os' q (ap (is_port_decided o.state.ports) same ∙ is.0)
          (ap (is_port_direct o.state.ports) same ∙ is.1) cq,
      refl,
    )

-- A FIN or RST, outbound and of a port that is not the port of the relay and not tracked, with a
-- table and bitmaps of their full size, whose bits mark the port as Direct, is sent as it is and
-- leaves the port marked as Direct, if the check finds the packet Direct once more.
pub direct-survives_close :
    (size : ℕ) (c : Settings) (s : Capture) (t : ConnectionTable) (os : Os) (p : Packet)
    → s.conn_table ≡ some t
    → HasSize s.ports
    → p.src_port < port_count
    → IsDirect s.ports p.src_port
    → p.src_port ≢ c.relay_port
    → is_tracked size t p.src_port ≡ false
    → p.outbound ≡ true
    → closing p ≡ true
    → (check_process_rule c os s.target_pid s.pid_cache p.src_port).action ≡ Action.direct
    → (o : Outcome) × (capture_packet size c s os p ≡ some o)
      × (o.sent ≡ some p)
      × IsDirect o.state.ports p.src_port
unfolding capture_packet
direct-survives_close size c s t os p h z b is other free out cp direct =
    let s1 = record s {
      packets_captured = add64 s.packets_captured 1;
      ports = clear_port s.ports p.src_port;
    } in
    let cleared : is_port_direct s1.ports p.src_port ≡ false =
      (ports_lem s.ports p.src_port p.src_port z b).5 ∙ rw (==_refl p.src_port) refl in
    let (o, e, sent, is') =
      dispatch-direct size c s1 t os p h (clear_port-HasSize s.ports p.src_port z) b other free out
        direct in
    (o, simp (cp, is.0, cleared, capture_packet) e, sent, is')
