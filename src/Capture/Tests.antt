-- ===== src/Capture/Tests.antt =====
-- WinDivertCapture.cpp: a client at port 5 of process 77, with the relay at port 34010.
use tcp_redirector.Prelude.{
  suc, ◌<◌, ◌≡◌, refl, true, false, [], ◌∷◌, none, some, length, arith, text_eq, test_bit, or_bit,
  u32_mod, add64,
}
use tcp_redirector.ConnectionTable.{is_tracked, find_live, empty}
use tcp_redirector.ConnectionTable.Placement.{empty-IsValid}
use tcp_redirector.Capture.Ports.{
  HasSize, no_ports, no_ports-HasSize, is_port_decided, is_port_direct, bit_at, set_at,
  set_port_direct, set_port_direct-HasSize,
}
use tcp_redirector.Capture.Process.{
  Action, Os, Settings, check_process_rule, find_pid_by_source_port, find_cached, find_row,
  scan_table, judge, by_rules, proxied, is_empty,
}
use tcp_redirector.Capture.Step.{
  Capture, Packet, Outcome, modify_dst_to_relay, turn, is_localhost_pair, is_localhost,
  capture_packet,
}
use tcp_redirector.Capture.Routes.{Turned, ToRelay, Answers, capture_packet-direct}
use tcp_redirector.Capture.Redirection.{round_trip}
use tcp_redirector.Capture.Direct.{IsDirect}
use tcp_redirector.Capture.Verdicts.{Grounds, check_process_rule-proxy}

abbrev chosen : Settings
chosen = record {
  relay_port = 34010;
  proxy_host = 112 ∷ [];
  proxy_port = 3128;
  target_path = 67 ∷ [];
  rules = none;
  monitored = true;
}

abbrev windows : Os
windows = record {
  read_ticks = 100;
  write_ticks = 101;
  tcp_table = some ((5, 77) ∷ []);
  own_id = 1;
  image_path = λ pid. some (67 ∷ []);
  snapshot = none;
  same_text = text_eq;
}

-- Windows that does not know the port yet.
abbrev unaware : Os
unaware = record windows { tcp_table = some [] }

abbrev start : Capture
start = record {
  ports = no_ports;
  conn_table = some (empty 4);
  target_pid = 0;
  pid_cache = [];
  packets_captured = 0;
  redirects_emitted = 0;
  total_rx_bytes = 0;
  total_tx_bytes = 0;
  active_connections = 0;
}

abbrev syn : Packet
syn = record {
  src_addr = 10;
  dst_addr = 20;
  src_port = 5;
  dst_port = 443;
  fin = false;
  rst = false;
  recv_len = 60;
  outbound = true;
}

abbrev answer : Packet
answer = record {
  src_addr = 10;
  dst_addr = 20;
  src_port = 34010;
  dst_port = 5;
  fin = false;
  rst = false;
  recv_len = 60;
  outbound = true;
}

proxied_syn : (check_process_rule chosen windows 0 [] 5).action ≡ Action.proxy
unfolding check_process_rule find_pid_by_source_port find_cached scan_table find_row judge by_rules
    proxied is_empty text_eq
proxied_syn = refl

path_syn : length (check_process_rule chosen windows 0 [] 5).path < 260
unfolding check_process_rule find_pid_by_source_port find_cached scan_table find_row judge by_rules
    proxied is_empty text_eq
path_syn = omega arith

direct_syn : (check_process_rule chosen unaware 0 [] 5).action ≡ Action.direct
unfolding check_process_rule find_pid_by_source_port find_cached scan_table find_row
direct_syn = refl

undecided_client : is_port_direct no_ports 5 ≡ false
unfolding is_port_direct bit_at no_ports test_bit
undecided_client = refl

undecided_relay : is_port_direct no_ports 34010 ≡ false
unfolding is_port_direct bit_at no_ports test_bit
undecided_relay = refl

room : suc (empty 4).tracked_count < u32_mod
unfolding empty
room = omega arith

untracked_syn : is_tracked 4 (empty 4) 5 ≡ false
unfolding is_tracked empty find_live
untracked_syn = refl

Answers-syn : Answers (modify_dst_to_relay 34010 syn) answer
unfolding modify_dst_to_relay turn is_localhost_pair is_localhost
Answers-syn = (refl, refl, refl, refl)

round_trip_example :
    (o o' : Outcome) × (q : Packet) × (capture_packet 4 chosen start windows syn ≡ some o)
    × (o.sent ≡ some (modify_dst_to_relay 34010 syn))
    × ToRelay 34010 syn (modify_dst_to_relay 34010 syn)
    × (o.checksums ≡ true)
    × (capture_packet 4 chosen o.state unaware answer ≡ some o')
    × (o'.sent ≡ some q)
    × Turned answer q
    × (o'.checksums ≡ true)
    × Answers syn q
round_trip_example =
    round_trip 4 chosen start (empty 4) windows unaware syn answer (omega arith) (empty-IsValid 4)
      room refl no_ports-HasSize (omega arith) undecided_client undecided_relay (omega arith)
      untracked_syn refl refl refl proxied_syn path_syn Answers-syn

check_process_rule-proxy_example :
    Grounds chosen windows 0 (check_process_rule chosen windows 0 [] 5)
check_process_rule-proxy_example = check_process_rule-proxy chosen windows 0 [] 5 proxied_syn

-- The same client, its port decided as Direct.
abbrev passing : Capture
passing = record start { ports = set_port_direct no_ports 5 }

passing-HasSize : HasSize passing.ports
passing-HasSize = set_port_direct-HasSize no_ports 5 no_ports-HasSize

passing-IsDirect : IsDirect passing.ports 5
unfolding is_port_decided is_port_direct set_port_direct set_at bit_at no_ports test_bit or_bit
passing-IsDirect = (refl, refl)

abbrev fin : Packet
fin = record syn { fin = true }

capture_packet-direct_example :
    capture_packet 4 chosen passing windows syn
    ≡ some (record {
      state = record passing { packets_captured = add64 0 1 };
      sent = some syn;
      checksums = false;
      calls = [];
    })
capture_packet-direct_example =
    capture_packet-direct 4 chosen passing windows syn passing-IsDirect.0 passing-IsDirect.1 refl
