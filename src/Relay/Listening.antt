-- ===== src/Relay/Listening.antt =====
-- Start, Stop and AcceptLoop of infrastructure/relay/TcpRelayServer.h: the sockets that listen, and Winsock.
pub mod Balance
mod Tests
use tcp_redirector.Prelude.{
  ℕ, zero, suc, Bool, true, false, ◌&&◌, List, [], ◌∷◌, ◌++◌, Option, none, some, ltb,
  if◌then◌else◌,
}

pub data ListenEvent : Type 0 where
  winsock_started winsock_cleaned : ListenEvent
  socket_opened socket_closed : (handle : ℕ) → ListenEvent
  accept_started accept_joined : ListenEvent
  drained : ListenEvent

-- The members that Start and Stop change.
pub record Listener : Type 0 where
  pub running : Bool
  pub listen_sock : Option ℕ
  pub listen_sock6 : Option ℕ
  pub events : List ListenEvent

-- What Winsock answers to a Start.
pub record StartApi : Type 0 where
  pub startup : Bool
  pub socket : Option ℕ
  pub binds : Bool
  pub listens : Bool
  pub socket6 : Option ℕ
  pub binds6 : Bool
  pub listens6 : Bool

unfoldable pub close_socket : Option ℕ → List ListenEvent → List ListenEvent
close_socket none es = es
close_socket (some h) es = socket_closed h ∷ es

-- The part for IPv6: the socket that is kept, and the events.
unfoldable pub listen6 : StartApi → List ListenEvent → Option ℕ × List ListenEvent
listen6 a es = elim a.socket6 [
  | none ↦ (none, es)
  | some h ↦
      if a.binds6 && a.listens6
      then (some h, socket_opened h ∷ es)
      else (none, socket_closed h ∷ socket_opened h ∷ es)
]

-- Start after WSAStartup.
unfoldable pub listen : StartApi → Listener → Listener × Bool
listen a s = elim a.socket [
  | none ↦ (record s { listen_sock = none; events = winsock_cleaned ∷ s.events }, false)
  | some h ↦
      let opened = socket_opened h ∷ s.events in
      let r = listen6 a opened in
      if a.binds && a.listens
      then (
        record {
          running = true;
          listen_sock = some h;
          listen_sock6 = r.0;
          events = accept_started ∷ r.1;
        },
        true,
      )
      else (
        record s { listen_sock = none; events = winsock_cleaned ∷ socket_closed h ∷ opened },
        false,
      )
]

unfoldable pub start : StartApi → Listener → Listener × Bool
start a s =
    if s.running
    then (s, true)
    else if a.startup
    then listen a (record s { events = winsock_started ∷ s.events })
    else (s, false)

-- The loop that waits for the relay pairs, with the number of active pairs that each test finds.
unfoldable pub drain : ℕ → (ℕ → ℕ) → List ListenEvent → List ListenEvent
drain zero active es = es
drain (suc n) active es = if ltb 0 (active n) then drain n active (drained ∷ es) else es

unfoldable pub stop : (ℕ → ℕ) → Listener → Listener
stop active s =
    if s.running
    then record {
      running = false;
      listen_sock = none;
      listen_sock6 = none;
      events =
          winsock_cleaned
          ∷ drain 50 active
              (accept_joined ∷ close_socket s.listen_sock6 (close_socket s.listen_sock s.events));
    }
    else s

abbrev pub is_held : Option ℕ → Bool
is_held none = false
is_held (some h) = true

-- The call of HandleNewConnection for what accept gives: the socket, the port, and whether it is IPv6.
unfoldable pub accepted : Bool → Option (ℕ × ℕ) → List (ℕ × ℕ × Bool)
accepted is_ipv6 none = []
accepted is_ipv6 (some (sock, port)) = (sock, port, is_ipv6) ∷ []

-- One round of AcceptLoop: what select says of the two sockets, `none` if it returns 0 or less, and what accept
-- gives for each; the calls of HandleNewConnection.
unfoldable pub accept_round :
    Option (Bool × Bool) → Option (ℕ × ℕ) → Option (ℕ × ℕ) → Listener → List (ℕ × ℕ × Bool)
accept_round none first second s = []
accept_round (some (ready, ready6)) first second s =
    (if ready then accepted false first else [])
    ++ (if is_held s.listen_sock6 && ready6 then accepted true second else [])
