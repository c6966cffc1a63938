-- ===== src/Relay/Throws.antt =====
-- TcpRelayServer.h: a `recv` that fails while ConnectionHandler waits for the reply to a CONNECT.
use tcp_redirector.Prelude.{ℕ, zero, suc, ◌≡◌, true, List, [], ◌∷◌, none, refl, ap, ◌∙◌, arith}
use tcp_redirector.Relay.Books.{tally, is_client_closed}
use tcp_redirector.Relay.Ledger.{connection_handler_leaks}
use tcp_redirector.Relay.{
  Server, World, Destination, Event, Run, Point, retry_proxy_connect, retry_connect, finished,
  thrown, resolved, proxy_opened, exchange, reach_proxy, step, run, start, enough_fuel,
  connection_handler,
}

module _ (s : Server) (w : World) (d : Destination) where
  run_stays : (fuel : ℕ) (p : Point × Run) → p.0 ≡ thrown → (run s w d fuel p).0 ≡ thrown
  unfolding run step
  run_stays zero p e = e
  run_stays (suc fuel) (retry_proxy_connect, r) e = cc
  run_stays (suc fuel) (retry_connect, r) e = cc
  run_stays (suc fuel) (finished, r) e = run_stays fuel (finished, r) e
  run_stays (suc fuel) (thrown, r) e = run_stays fuel (thrown, r) e

  exchange_throws :
      (r : Run)
      → ((es : List Event) → w.sends es ≡ true)
      → ((es : List Event) → w.receives es ≡ none)
      → (exchange s w d r).0 ≡ thrown
  unfolding exchange
  exchange_throws r sends fails = simp (sends, fails, exchange) refl

-- Let the proxy be reachable: its name resolves, and a socket to it opens, connects and takes the request.
-- If then every `recv` fails, the handler is left by an exception, whatever the authentication, and it has
-- not closed the client's socket.
pub connection_handler_throws :
    (s : Server) (w : World) (d : Destination) (token : List ℕ)
    → w.resolves ≡ true
    → ((es : List Event) → w.opens es ≡ true)
    → ((es : List Event) → w.connects es ≡ true)
    → ((es : List Event) → w.sends es ≡ true)
    → ((es : List Event) → w.receives es ≡ none)
    → ((connection_handler s w d token).0 ≡ thrown)
      × (tally is_client_closed (connection_handler s w d token).1.events ≡ 0)
connection_handler_throws s w d token resolves opens connects sends fails =
    let r : Run = record {
      events = resolved ∷ [];
      gateway_retries = 0;
      context = none;
      auth_retries = 0;
      last_token = token;
    } in
    let opened : Run = record r { events = proxy_opened ∷ r.events } in
    let first : start s w token ≡ (retry_proxy_connect, r) =
      unfold start in simp (resolves, start) refl in
    let second : step s w d (retry_proxy_connect, r) ≡ (retry_connect, opened) =
      unfold step reach_proxy in simp (opens, connects, reach_proxy) refl in
    let third : (step s w d (step s w d (retry_proxy_connect, r))).0 ≡ thrown =
      ap (λ p. (step s w d p).0) second
      ∙ (unfold step in exchange_throws s w d opened sends fails) in
    let over : (connection_handler s w d token).0 ≡ thrown =
      unfold connection_handler in
      ap (λ p. (run s w d enough_fuel p).0) first
      ∙ (unfold run in
          run_stays s w d 26 (step s w d (step s w d (retry_proxy_connect, r))) third) in
    (over, omega (arith, (connection_handler_leaks s w d token over).0))
