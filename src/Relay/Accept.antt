-- ===== src/Relay/Accept.antt =====
-- TcpRelayServer.h: HandleNewConnection, from an accepted socket to the handler of the connection.
use tcp_redirector.ConnectionTable.Lookups.{IsFront, get-add}
use tcp_redirector.ConnectionTable.Placement.{IsValid}
use tcp_redirector.ConnectionTable.View.{view}
use tcp_redirector.ConnectionTable.{ConnectionTable, add, get, get_proxy_config_id}
use tcp_redirector.Prelude.{
  ℕ, suc, ◌<◌, ◌≡◌, Bool, true, false, List, [], ◌∷◌, Option, none, some, All, if◌then◌else◌,
  u32_mod,
}
use tcp_redirector.Relay.Requests.{Names, connection_handler-Names}
use tcp_redirector.Relay.{Server, World, Event, client_closed, connection_handler}

pub record RelayContext : Type 0 where
  pub orig_dest_ip : ℕ
  pub orig_dest_port : ℕ
  pub proxy_config_id : ℕ

-- What the thread of the connection gets; `none` where the socket is closed instead. `thread`: CreateThread
-- succeeds.
unfoldable pub handle_new_connection : ℕ → ConnectionTable → Bool → ℕ → Option RelayContext
handle_new_connection size table thread client_port = elim (get size table client_port) [
  | none ↦ none
  | some (ip, port) ↦
      let context : RelayContext = record {
        orig_dest_ip = ip;
        orig_dest_port = port;
        proxy_config_id = get_proxy_config_id size table client_port;
      } in
      if thread then some context else none
]

-- What becomes of an accepted socket, to the end of its handler or to the start of its bridge.
unfoldable pub serve : Server → World → List ℕ → Option RelayContext → List Event
serve s w token none = client_closed ∷ []
serve s w token (some c) =
    (connection_handler s w (record { dest_ip = c.orig_dest_ip; dest_port = c.orig_dest_port })
      token).1.events

found-Names :
    (size : ℕ) (table : ConnectionTable) (thread : Bool) (client_port : ℕ) (s : Server) (w : World)
    (token : List ℕ) (ip port : ℕ)
    → get size table client_port ≡ some (ip, port)
    → All
        (Names w (record { dest_ip = ip; dest_port = port }))
        (serve s w token (handle_new_connection size table thread client_port))
unfolding handle_new_connection serve
found-Names size table true client_port s w token ip port e =
    rw (e, handle_new_connection)
      (connection_handler-Names w (record { dest_ip = ip; dest_port = port }) s token)
found-Names size table false client_port s w token ip port e =
    rw (e, handle_new_connection) (tt, tt)

-- Let a destination be added to a valid table, whose count is not at its maximum, for a port whose newest
-- entry has that address or none of whose entries has it: an address that only an older entry of the port
-- has is left out. Then every CONNECT request that the relay sends for a client of that port, in its
-- whole run and whatever it is answered, names the destination that was added.
pub serve-add :
    (size : ℕ) (t : ConnectionTable) (p src ip dest config : ℕ) (thread : Bool) (s : Server)
    (w : World) (token : List ℕ)
    → 0 < size
    → IsValid size t
    → suc t.tracked_count < u32_mod
    → IsFront ip (view size t p)
    → All
        (Names w (record { dest_ip = ip; dest_port = dest }))
        (serve s w token (handle_new_connection size (add size t p src ip dest config) thread p))
serve-add size t p src ip dest config thread s w token pos v room same =
    found-Names size (add size t p src ip dest config) thread p s w token ip dest
      (get-add size t p src ip dest config pos v room same)
