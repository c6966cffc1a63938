-- ===== src/Capture/Routes.antt =====
-- WinDivertCapture.cpp: where the packets of a connection go, and what the relay's answers look like.
use tcp_redirector.Prelude.{
  ℕ, ◌^◌, ◌/◌, ◌==◌, ◌≡◌, ◌⊎◌, refl, ap, ◌∙◌, true, false, [], none, some, add64, arith, inl, inr,
  Bool-cases, ==_iff,
}
use tcp_redirector.ConnectionTable.{ConnectionTable, get}
use tcp_redirector.Capture.Ports.{is_port_decided, is_port_direct}
use tcp_redirector.Capture.Process.{Os, Settings}
use tcp_redirector.Capture.Step.{
  Capture, Packet, closing, turn, is_localhost, is_localhost_pair, modify_dst_to_relay,
  restore_from_relay, capture_packet,
}

-- The packet goes the way of the other one, backwards.
abbrev pub Answers : Packet → Packet → Type 0
Answers p q =
    (q.src_addr ≡ p.dst_addr)
    × (q.dst_addr ≡ p.src_addr)
    × (q.src_port ≡ p.dst_port)
    × (q.dst_port ≡ p.src_port)

-- Both addresses are of the form 127.x.y.z.
abbrev pub BothLocal : Packet → Type 0
BothLocal p = (p.src_addr / 2 ^ 24 ≡ 127) × (p.dst_addr / 2 ^ 24 ≡ 127)

-- Between two local addresses the packet keeps its addresses and its direction; otherwise the addresses are
-- exchanged and it goes in.
abbrev pub Turned : Packet → Packet → Type 0
Turned p q =
    (BothLocal p
      × (q.src_addr ≡ p.src_addr)
      × (q.dst_addr ≡ p.dst_addr)
      × (q.outbound ≡ p.outbound))
    ⊎ (¬ BothLocal p × (q.src_addr ≡ p.dst_addr) × (q.dst_addr ≡ p.src_addr) × (q.outbound ≡ false))

-- The packet goes to the port of the relay and is otherwise the one of the client, turned.
abbrev pub ToRelay : ℕ → Packet → Packet → Type 0
ToRelay relay p q =
    (q.src_port ≡ p.src_port)
    × (q.dst_port ≡ relay)
    × (q.fin ≡ p.fin)
    × (q.rst ≡ p.rst)
    × (q.recv_len ≡ p.recv_len)
    × Turned p q

BothLocal-iff :
    (p : Packet)
    → (BothLocal p → is_localhost_pair p ≡ true) × (is_localhost_pair p ≡ true → BothLocal p)
unfolding is_localhost_pair is_localhost
BothLocal-iff p =
    (λ h. ground (arith, h, src, dst), λ e. (src.1 (ground arith), dst.1 (ground arith)))
  where
    src :
        (p.src_addr / 2 ^ 24 ≡ 127 → (p.src_addr / 2 ^ 24 == 127) ≡ true)
        × ((p.src_addr / 2 ^ 24 == 127) ≡ true → p.src_addr / 2 ^ 24 ≡ 127)
    src = ((==_iff (p.src_addr / 2 ^ 24) 127).1, (==_iff (p.src_addr / 2 ^ 24) 127).0)

    dst :
        (p.dst_addr / 2 ^ 24 ≡ 127 → (p.dst_addr / 2 ^ 24 == 127) ≡ true)
        × ((p.dst_addr / 2 ^ 24 == 127) ≡ true → p.dst_addr / 2 ^ 24 ≡ 127)
    dst = ((==_iff (p.dst_addr / 2 ^ 24) 127).1, (==_iff (p.dst_addr / 2 ^ 24) 127).0)

turn-Turned : (p : Packet) → Turned p (turn p)
unfolding turn
turn-Turned p = elim (Bool-cases (is_localhost_pair p)) [
  | inl e ↦ rw (e, turn) (inl ((BothLocal-iff p).1 e, refl, refl, refl))
  | inr e ↦ rw (e, turn) (inr (λ h. absurd (cc ((BothLocal-iff p).0 h, e)), refl, refl, refl))
]

pub modify-ToRelay : (relay : ℕ) (p : Packet) → ToRelay relay p (modify_dst_to_relay relay p)
unfolding modify_dst_to_relay turn
modify-ToRelay relay p = (
  ground arith,
  ground arith,
  ground arith,
  ground arith,
  ground arith,
  turn-Turned (record p { dst_port = relay }),
)

pub restore-Turned :
    (size : ℕ) (t : ConnectionTable) (r : Packet) → Turned r (restore_from_relay size t r)
unfolding restore_from_relay
restore-Turned size t r =
    elim (get size t r.dst_port)
      as (λ o. Turned r (elim o [ none ↦ turn r | some x ↦ turn (record r { src_port = x.1 }) ])) [
        | none ↦ turn-Turned r
        | some x ↦ turn-Turned (record r { src_port = x.1 })
      ]

-- What is sent to the relay arrives at its port, and the answer of the relay, restored under the original
-- port, is an answer to the packet of the client.
turn-Answers :
    (relay port : ℕ) (p r : Packet)
    → Answers (modify_dst_to_relay relay p) r
    → port ≡ p.dst_port
    → Answers p (turn (record r { src_port = port }))
unfolding modify_dst_to_relay turn is_localhost_pair
turn-Answers relay port p r h e = ground arith

pub modify-dst_port : (relay : ℕ) (p : Packet) → (modify_dst_to_relay relay p).dst_port ≡ relay
unfolding modify_dst_to_relay turn
modify-dst_port relay p = ground arith

pub modify-src_port : (relay : ℕ) (p : Packet) → (modify_dst_to_relay relay p).src_port ≡ p.src_port
unfolding modify_dst_to_relay turn
modify-src_port relay p = ground arith

pub restore-Answers :
    (size relay : ℕ) (t : ConnectionTable) (p r : Packet)
    → get size t p.src_port ≡ some (p.dst_addr, p.dst_port)
    → Answers (modify_dst_to_relay relay p) r
    → Answers p (restore_from_relay size t r)
unfolding restore_from_relay
restore-Answers size relay t p r g h =
    let e : r.dst_port ≡ p.src_port = h.3 ∙ modify-src_port relay p in
    let f : get size t r.dst_port ≡ some (p.dst_addr, p.dst_port) = ap (get size t) e ∙ g in
    rw (f, restore_from_relay) (turn-Answers relay p.dst_port p r h refl)

-- A packet of a port that is decided as Direct, and that closes nothing, is sent as it is, whatever Windows
-- says by then, and changes nothing but the count of packets.
pub capture_packet-direct :
    (size : ℕ) (c : Settings) (s : Capture) (os : Os) (p : Packet)
    → is_port_decided s.ports p.src_port ≡ true
    → is_port_direct s.ports p.src_port ≡ true
    → closing p ≡ false
    → capture_packet size c s os p
      ≡ some (record {
        state = record s { packets_captured = add64 s.packets_captured 1 };
        sent = some p;
        checksums = false;
        calls = [];
      })
unfolding capture_packet
capture_packet-direct size c s os p d f q = rw (q, d, f) refl
