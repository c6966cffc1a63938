-- ===== src/Relay/Ledger.antt =====
-- TcpRelayServer.h: what ConnectionHandler opens and closes, counted over the events of a run.
use tcp_redirector.Prelude.{ℕ, suc, ◌+◌, ◌-◌, ◌≡◌, List, none, arith, if◌then◌else◌}
use tcp_redirector.Relay.Books.{
  tally, is_proxy_opened, is_proxy_closed, is_client_closed, is_bridge_started, is_resolved,
  is_freed, is_proxy_error, is_created, is_closed, ended, connected, IsIdle, Books, run-Balanced,
  start-Balanced,
}
use tcp_redirector.Relay.{
  Server, World, Destination, Run, Point, retry_proxy_connect, retry_connect, finished, thrown,
  start, enough_fuel, connection_handler,
}

-- The books at the end of the handler.
handler-Books :
    (s : Server) (w : World) (d : Destination) (token : List ℕ) (id : ℕ)
    → let p = connection_handler s w d token in Books s id p.0 p.1
unfolding connection_handler
handler-Books s w d token id =
    run-Balanced s w d id enough_fuel (start s w token) (start-Balanced s w id token)

ended_lem : (at : Point) → at ≡ finished → (ended at ≡ 1) × (connected at ≡ 0)
ended_lem at e = ground arith

thrown_lem : (at : Point) → at ≡ thrown → (ended at ≡ 0) × (connected at ≡ 1)
thrown_lem at e = ground arith

idle_lem : (at : Point) (r : Run) → at ≡ finished → IsIdle at r → r.context ≡ none
idle_lem finished r e h = h
idle_lem retry_proxy_connect r e h = cc
idle_lem retry_connect r e h = cc
idle_lem thrown r e h = cc

-- If the handler returns, then it closes the client's socket exactly once or starts the bridge with it
-- exactly once, and never both; of the sockets to the proxy that it opened, it closes each exactly once but
-- the one that it hands to a bridge; and it frees the resolved address exactly once if there is one.
pub connection_handler_closes :
    (s : Server) (w : World) (d : Destination) (token : List ℕ)
    → (connection_handler s w d token).0 ≡ finished
    → let events = (connection_handler s w d token).1.events in
      (tally is_client_closed events + tally is_bridge_started events ≡ 1)
      × (tally is_proxy_opened events
          ≡ tally is_proxy_closed events + tally is_bridge_started events)
      × (tally is_freed events ≡ tally is_resolved events)
connection_handler_closes s w d token e =
    let b = handler-Books s w d token 0 in
    let (over, off) = ended_lem (connection_handler s w d token).0 e in
    (omega (arith, b.client), omega (arith, b.proxy), omega (arith, b.address))

-- If the handler returns, a context of any id was closed as often as it was created: no CONNECT leaves a
-- context behind, and none is closed twice.
pub connection_handler_contexts :
    (s : Server) (w : World) (d : Destination) (token : List ℕ) (id : ℕ)
    → (connection_handler s w d token).0 ≡ finished
    → let events = (connection_handler s w d token).1.events in
      tally (is_created id) events ≡ tally (is_closed id) events
connection_handler_contexts s w d token id e =
    let b = handler-Books s w d token id in
    let f =
      idle_lem (connection_handler s w d token).0 (connection_handler s w d token).1 e b.idle in
    ground (arith, b.context, f)

-- If the handler returns, then with a connection monitor it has counted exactly one proxy error if it
-- started no bridge, and none if it started one; without a monitor it has counted none.
pub connection_handler_errors :
    (s : Server) (w : World) (d : Destination) (token : List ℕ)
    → (connection_handler s w d token).0 ≡ finished
    → let events = (connection_handler s w d token).1.events in
      tally is_proxy_error events ≡ (if s.monitored then 1 - tally is_bridge_started events else 0)
connection_handler_errors s w d token e =
    let b = handler-Books s w d token 0 in
    let (over, off) = ended_lem (connection_handler s w d token).0 e in
    ground (arith, b.errors, b.client)

-- If an exception leaves the handler, then the client's socket and exactly one socket to the proxy are still
-- open, no bridge has them, and the resolved address is not freed.
pub connection_handler_leaks :
    (s : Server) (w : World) (d : Destination) (token : List ℕ)
    → (connection_handler s w d token).0 ≡ thrown
    → let events = (connection_handler s w d token).1.events in
      (tally is_client_closed events + tally is_bridge_started events ≡ 0)
      × (tally is_proxy_opened events ≡ suc (tally is_proxy_closed events))
      × (tally is_resolved events ≡ suc (tally is_freed events))
connection_handler_leaks s w d token e =
    let b = handler-Books s w d token 0 in
    let (on, held) = thrown_lem (connection_handler s w d token).0 e in
    (omega (arith, b.client), omega (arith, b.proxy, b.client), omega (arith, b.address))
