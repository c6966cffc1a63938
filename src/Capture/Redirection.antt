-- ===== src/Capture/Redirection.antt =====
-- WinDivertCapture.cpp: a connection that the rules send to the proxy, from its first packet to the answer.
use tcp_redirector.Prelude.{
  ℕ, suc, ◌<◌, ◌≡◌, ◌≢◌, refl, ap, sym, ◌∙◌, true, false, not, ◌&&◌, List, [], ◌∷◌, Option, none,
  some, length, ◌==◌, ==_iff, u32_mod, add64, if◌then◌else◌, if-cases, arith, Bool-cases, inl, inr,
}
use tcp_redirector.ConnectionTable.{
  ConnectionEntry, ConnectionTable, path_size, add, get, is_tracked, with_process, set_process_info,
  add_bytes,
}
use tcp_redirector.ConnectionTable.Placement.{IsValid}
use tcp_redirector.ConnectionTable.Upkeep.{add-IsValid, set_process_info-IsValid}
use tcp_redirector.ConnectionTable.View.{view, newest, exists, change_newest, destination}
use tcp_redirector.ConnectionTable.Lookups.{get-add, lookups-newest, set_process_info-Only}
use tcp_redirector.Capture.Ports.{
  HasSize, ports_lem, port_count, is_port_decided, is_port_direct, set_port_decided,
}
use tcp_redirector.Capture.Process.{Action, Os, Settings, Verdict, check_process_rule, is_empty}
use tcp_redirector.Capture.Step.{
  added, Capture, Packet, Outcome, closing, modify_dst_to_relay, restore_from_relay, from_relay,
  untracked, decide, track, route, dispatch, capture_packet,
}
use tcp_redirector.Capture.Routes.{
  Answers, Turned, ToRelay, modify-src_port, modify-dst_port, modify-ToRelay, restore-Turned,
  restore-Answers,
}

module _ (size : ℕ) (some_buckets : 0 < size) where
  -- An untracked port has no entries.
  view-untracked :
      (t : ConnectionTable) (p : ℕ)
      → IsValid size t
      → is_tracked size t p ≡ false
      → view size t p ≡ []
  view-untracked t p v h =
      no_newest (view size t p) (sym (lookups-newest size t p some_buckets v).2 ∙ h)
    where
      no_newest : (es : List ConnectionEntry) → exists (newest es) ≡ false → es ≡ []
      no_newest [] h = refl
      no_newest (e ∷ es) h = cc

  same_destination :
      (f : ConnectionEntry → ConnectionEntry) (es : List ConnectionEntry)
      → ((e : ConnectionEntry)
          → ((f e).orig_dest_ip ≡ e.orig_dest_ip) × ((f e).orig_dest_port ≡ e.orig_dest_port))
      → destination (newest (change_newest f es)) ≡ destination (newest es)
  same_destination f [] same = refl
  same_destination f (e ∷ es) same = rw ((same e).0, (same e).1) refl

  get-set_process_info :
      (t : ConnectionTable) (p pid : ℕ) (path : List ℕ)
      → IsValid size t
      → length path < path_size
      → (u : ConnectionTable) × (set_process_info size t p pid (some path) ≡ some u)
        × (get size u p ≡ get size t p)
        × IsValid size u
  get-set_process_info t p pid path v fits =
      let (u, e, only) = set_process_info-Only size t p pid path some_buckets v fits in
      let w = set_process_info-IsValid size some_buckets t u p pid (some path) v e in
      (
        u,
        e,
        (lookups-newest size u p some_buckets w).0
            ∙ ap (λ es. destination (newest es)) only.0
            ∙ same_destination (with_process pid path) (view size t p) (λ e. (refl, refl))
            ∙ sym (lookups-newest size t p some_buckets v).0,
        w,
      )

  -- A table that gives the destination of the packet.
  abbrev Tracks : ConnectionTable → Packet → Type 0
  Tracks u p = (get size u p.src_port ≡ some (p.dst_addr, p.dst_port)) × IsValid size u

  -- The table after a connection was tracked gives its destination.
  track_lem :
      (c : Settings) (t : ConnectionTable) (p : Packet) (v : Verdict)
      → IsValid size t
      → suc t.tracked_count < u32_mod
      → is_tracked size t p.src_port ≡ false
      → length v.path < path_size
      → (u : ConnectionTable) × (track size c t p v ≡ some u) × Tracks u p
  unfolding track
  track_lem c t p v valid room free fits =
      let a = add size t p.src_port p.src_addr p.dst_addr p.dst_port 0 in
      let w =
        add-IsValid size some_buckets t p.src_port p.src_addr p.dst_addr p.dst_port 0 valid room in
      let none_yet = view-untracked t p.src_port valid free in
      let g : get size a p.src_port ≡ some (p.dst_addr, p.dst_port) =
        get-add size t p.src_port p.src_addr p.dst_addr p.dst_port 0 some_buckets valid room
          (inl (rw none_yet tt)) in
      let (u, e, same, x) = get-set_process_info a p.src_port v.pid v.path w fits in
      if-cases (λ (o : Option ConnectionTable). (u : ConnectionTable) × (o ≡ some u) × Tracks u p)
        (not (v.pid == 0) && not (is_empty v.path)) (u, e, (same ∙ g, x)) (a, refl, (g, w))

-- The outcome of the first packet of a proxied connection, with the table after it.
abbrev pub proxied_outcome : Settings → Capture → Packet → Verdict → ConnectionTable → Outcome
proxied_outcome c s p v u = record {
  state = record s {
    conn_table = some u;
    ports = set_port_decided s.ports p.src_port;
    redirects_emitted = add64 s.redirects_emitted 1;
  };
  sent = some (modify_dst_to_relay c.relay_port p);
  checksums = true;
  calls = if c.monitored then added p.src_port v.pid v.path p.dst_port ∷ [] else [];
}

decide-proxy :
    (size : ℕ) (c : Settings) (s : Capture) (t u : ConnectionTable) (p : Packet) (v : Verdict)
    → v.action ≡ Action.proxy
    → track size c t p v ≡ some u
    → decide size c s t p v ≡ some (proxied_outcome c s p v u)
unfolding decide
decide-proxy size c s t u p v proxy e = rw (proxy, decide) (rw e refl)

-- A packet that closes nothing, of a port that is not decided as Direct, is routed.
pub capture_packet-route :
    (size : ℕ) (c : Settings) (s : Capture) (os : Os) (p : Packet)
    → closing p ≡ false
    → is_port_direct s.ports p.src_port ≡ false
    → capture_packet size c s os p
      ≡ route size c (record s { packets_captured = add64 s.packets_captured 1 }) os p
unfolding capture_packet
capture_packet-route size c s os p q f = elim (Bool-cases (is_port_decided s.ports p.src_port)) [
  | inl e ↦ rw (q, e, f, capture_packet) refl
  | inr e ↦ rw (e, capture_packet) refl
]

pub route-table :
    (size : ℕ) (c : Settings) (s : Capture) (t : ConnectionTable) (os : Os) (p : Packet)
    → s.conn_table ≡ some t
    → route size c s os p ≡ dispatch size c s t os p
unfolding route
route-table size c s t os p h =
    ap
      (λ (o : Option ConnectionTable). elim o [
        | none ↦ some (record { state = s; sent = some p; checksums = false; calls = [] })
        | some x ↦ dispatch size c s x os p
      ])
      h

-- The answer of the relay to a connection that the table knows is sent on as one of its destination.
pub route-answer :
    (size : ℕ) (c : Settings) (s : Capture) (t : ConnectionTable) (os : Os) (p r : Packet)
    → s.conn_table ≡ some t
    → get size t p.src_port ≡ some (p.dst_addr, p.dst_port)
    → Answers (modify_dst_to_relay c.relay_port p) r
    → closing r ≡ false
    → (o : Outcome) × (q : Packet) × (route size c s os r ≡ some o)
      × (o.sent ≡ some q)
      × (o.checksums ≡ true)
      × Turned r q
      × Answers p q
unfolding dispatch from_relay
route-answer size c s t os p r h g a q =
    let e : r.src_port ≡ c.relay_port = a.2 ∙ modify-dst_port c.relay_port p in
    let here : (r.src_port == c.relay_port) ≡ true = (==_iff r.src_port c.relay_port).1 e in
    let port : r.dst_port ≡ p.src_port = a.3 ∙ modify-src_port c.relay_port p in
    let known : get size t r.dst_port ≡ some (p.dst_addr, p.dst_port) = ap (get size t) port ∙ g in
    let restored = restore_from_relay size t r in
    (
      record {
        state = record s { conn_table = some (add_bytes size t r.dst_port 0 r.recv_len) };
        sent = some restored;
        checksums = true;
        calls = [];
      },
      restored,
      route-table size c s t os r h ∙ simp (here, known, q, dispatch, from_relay) refl,
      refl,
      refl,
      restore-Turned size t r,
      restore-Answers size c.relay_port t p r g a,
    )

-- The state that a check leaves.
abbrev pub checked : Settings → Os → Capture → Packet → Capture
checked c os s p =
    let v = check_process_rule c os s.target_pid s.pid_cache p.src_port in
    record s {
      packets_captured = add64 s.packets_captured 1;
      target_pid = v.target_pid;
      pid_cache = v.pid_cache;
    }

-- A packet that is sent out, of an untracked port, is decided on by the check.
pub route-untracked :
    (size : ℕ) (c : Settings) (s : Capture) (t : ConnectionTable) (os : Os) (p : Packet)
    → s.conn_table ≡ some t
    → p.src_port ≢ c.relay_port
    → is_tracked size t p.src_port ≡ false
    → p.outbound ≡ true
    → route size c (record s { packets_captured = add64 s.packets_captured 1 }) os p
      ≡ decide size c
          (checked c os s p)
          t
          p
          (check_process_rule c os s.target_pid s.pid_cache p.src_port)
unfolding dispatch untracked
route-untracked size c s t os p h other free out =
    let there : (p.src_port == c.relay_port) ≡ false = ground (arith, other) in
    route-table size c (record s { packets_captured = add64 s.packets_captured 1 }) t os p h
    ∙ simp (there, free, out, dispatch) refl

-- The first packet of a new connection that the check sends to the proxy is sent on with the port of the
-- relay as its destination port and is otherwise as it was, but that its addresses are exchanged and it
-- goes in instead of out, unless both are of the form 127.x.y.z. An answer of the relay to it is sent
-- on as an answer of the original destination: addresses and ports are those of the first packet,
-- exchanged; it goes in, unless both its addresses are of that form, where its direction stays. Both are
-- sent with computed checksums. The first packet is outbound, from a 16-bit port
-- that is not the port of the relay and has no connection in the table; neither of the two ports is
-- marked as Direct; neither packet is a FIN or RST; the table is valid, with a bucket and with room
-- for one more; the bitmaps have their full size, and the path of the process fits its array.
pub round_trip :
    (size : ℕ) (c : Settings) (s : Capture) (t : ConnectionTable) (os os' : Os) (p r : Packet)
    → 0 < size
    → IsValid size t
    → suc t.tracked_count < u32_mod
    → s.conn_table ≡ some t
    → HasSize s.ports
    → p.src_port < port_count
    → is_port_direct s.ports p.src_port ≡ false
    → is_port_direct s.ports c.relay_port ≡ false
    → p.src_port ≢ c.relay_port
    → is_tracked size t p.src_port ≡ false
    → p.outbound ≡ true
    → closing p ≡ false
    → closing r ≡ false
    → (check_process_rule c os s.target_pid s.pid_cache p.src_port).action ≡ Action.proxy
    → length (check_process_rule c os s.target_pid s.pid_cache p.src_port).path < path_size
    → Answers (modify_dst_to_relay c.relay_port p) r
    → (o o' : Outcome) × (q : Packet) × (capture_packet size c s os p ≡ some o)
      × (o.sent ≡ some (modify_dst_to_relay c.relay_port p))
      × ToRelay c.relay_port p (modify_dst_to_relay c.relay_port p)
      × (o.checksums ≡ true)
      × (capture_packet size c o.state os' r ≡ some o')
      × (o'.sent ≡ some q)
      × Turned r q
      × (o'.checksums ≡ true)
      × Answers p q
round_trip size c s t os os' p r pos valid room h sz port f fr other free out qp qr proxy fits a =
    let v = check_process_rule c os s.target_pid s.pid_cache p.src_port in
    let s1 = checked c os s p in
    let (u, e, tracks) = track_lem size pos c t p v valid room free fits in
    let o = proxied_outcome c s1 p v u in
    let first : capture_packet size c s os p ≡ some o =
      capture_packet-route size c s os p qp f
      ∙ route-untracked size c s t os p h other free out
      ∙ decide-proxy size c s1 t u p v proxy e in
    let relay : r.src_port ≡ c.relay_port = a.2 ∙ modify-dst_port c.relay_port p in
    let open_relay : is_port_direct o.state.ports r.src_port ≡ false =
      ap (is_port_direct o.state.ports) relay
      ∙ (ports_lem s.ports p.src_port c.relay_port sz port).3
      ∙ fr in
    let s2 = record o.state { packets_captured = add64 o.state.packets_captured 1 } in
    let (o', q, answered, sent, sums, turned, back) =
      route-answer size c s2 u os' p r refl tracks.0 a qr in
    (
      o,
      o',
      q,
      first,
      refl,
      modify-ToRelay c.relay_port p,
      refl,
      capture_packet-route size c o.state os' r qr open_relay ∙ answered,
      sent,
      turned,
      sums,
      back,
    )
