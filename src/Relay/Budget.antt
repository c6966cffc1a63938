-- ===== src/Relay/Budget.antt =====
-- TcpRelayServer.h: how often ConnectionHandler connects to the proxy, and how many CONNECT requests it sends.
use tcp_redirector.Prelude.{
  ℕ, zero, suc, ◌+◌, ◌*◌, ◌≤◌, ◌≡◌, List, [], ◌∷◌, Option, arith, inl, inr,
}
use tcp_redirector.Relay.Cases.{answered-cases, exchange-cases}
use tcp_redirector.Relay.Termination.{
  Within, IsOver, authorize-same, step-Fewer, start-Within, connection_handler_ends,
}
use tcp_redirector.Relay.{
  Server, World, Destination, Run, Point, Event, retry_proxy_connect, retry_connect, finished,
  thrown, AuthProviderType, close_context, give_up, authorize, succeed, try_again, continue_context,
  count_error, create_late, challenged, refused, answered, exchange, reach_proxy, step, happen,
  sent, received, connect_request, run, start, enough_fuel, connection_handler, proxy_opened,
}

-- The connections to the proxy in a log.
unfoldable pub connections : List Event → ℕ
connections [] = 0
connections (proxy_opened ∷ es) = suc (connections es)
connections (_ ∷ es) = connections es

-- The CONNECT requests in a log.
unfoldable pub requests : List Event → ℕ
requests [] = 0
requests (sent text ∷ es) = suc (requests es)
requests (_ ∷ es) = requests es

-- What was spent at the labels: six requests at most for each connection.
abbrev Spent : Point × Run → Type 0
Spent (retry_proxy_connect, r) =
    (connections r.events ≤ r.gateway_retries) × (requests r.events ≤ 6 * r.gateway_retries)
Spent (retry_connect, r) =
    (connections r.events ≤ suc r.gateway_retries)
    × (requests r.events ≤ 6 * r.gateway_retries + r.auth_retries)
Spent (finished, r) = (connections r.events ≤ 4) × (requests r.events ≤ 24)
Spent (thrown, r) = (connections r.events ≤ 4) × (requests r.events ≤ 24)

-- One more request was sent at the second label.
abbrev Asked : Run → Type 0
Asked r =
    (r.gateway_retries ≤ 3)
    × (r.auth_retries ≤ 5)
    × (connections r.events ≤ suc r.gateway_retries)
    × (requests r.events ≤ suc (6 * r.gateway_retries + r.auth_retries))

authorize_spends :
    (s : Server) (w : World) (r : Run)
    → let a = (authorize s w r).0 in
      (connections a.events ≡ connections r.events) × (requests a.events ≡ requests r.events)
unfolding authorize connections requests
authorize_spends s w r = ground arith

give_up-Spent : (s : Server) (r : Run) → Asked r → Spent (give_up s r)
unfolding give_up close_context connections requests
give_up-Spent s r h = ground arith

refused-Spent : (s : Server) (r : Run) (reply : List ℕ) → Asked r → Spent (refused s r reply)
unfolding refused give_up close_context connections requests
refused-Spent s r reply h = ground arith

challenged-Spent :
    (s : Server) (w : World) (kind : AuthProviderType) (held : Option ℕ) (r : Run) (reply : List ℕ)
    → Asked r
    → Spent (challenged s w kind held r reply)
unfolding challenged continue_context create_late try_again give_up close_context connections
    requests
challenged-Spent s w kind held r reply h = ground arith

succeed-Spent : (s : Server) (r : Run) → Asked r → Spent (succeed s r)
unfolding succeed close_context connections requests
succeed-Spent s r h = ground arith

answered-Spent :
    (s : Server) (w : World) (r : Run) (reply : List ℕ) → Asked r → Spent (answered s w r reply)
answered-Spent s w r reply h =
    answered-cases Spent s w r reply (λ e. succeed-Spent s r h) (refused-Spent s r reply h)
      (λ kind. challenged-Spent s w kind r.context r reply h)

exchange-Spent :
    (s : Server) (w : World) (d : Destination) (r : Run)
    → Within (retry_connect, r)
    → Spent (retry_connect, r)
    → Spent (exchange s w d r)
unfolding connections requests
exchange-Spent s w d r (g, a) (c, q) =
    let (same_g, same_a) = authorize-same s w r in
    let (same_c, same_q) = authorize_spends s w r in
    let ready = (authorize s w r).0 in
    let asked = happen (sent (connect_request w d (authorize s w r).1)) ready in
    let unsent : Asked ready = (omega arith, omega arith, omega arith, omega arith) in
    let one : Asked asked = (omega arith, omega arith, omega arith, omega arith) in
    exchange-cases Spent s w d r (give_up-Spent s ready unsent) (give_up-Spent s asked one)
      (omega arith, omega arith)
      (λ reply. answered-Spent s w (happen (received reply) asked) reply one)

reach_proxy-Spent :
    (s : Server) (w : World) (r : Run)
    → Within (retry_proxy_connect, r)
    → Spent (retry_proxy_connect, r)
    → Spent (reach_proxy s w r)
unfolding reach_proxy give_up close_context count_error connections requests
reach_proxy-Spent s w r h b = ground arith

step-Spent :
    (s : Server) (w : World) (d : Destination) (p : Point × Run)
    → Within p
    → Spent p
    → Spent (step s w d p)
unfolding step
step-Spent s w d (retry_proxy_connect, r) h b = reach_proxy-Spent s w r h b
step-Spent s w d (retry_connect, r) h b = exchange-Spent s w d r h b
step-Spent s w d (finished, r) h b = b
step-Spent s w d (thrown, r) h b = b

run-Spent :
    (s : Server) (w : World) (d : Destination) (fuel : ℕ) (p : Point × Run)
    → Within p
    → Spent p
    → Spent (run s w d fuel p)
unfolding run
run-Spent s w d zero p h b = b
run-Spent s w d (suc fuel) p h b =
    run-Spent s w d fuel (step s w d p) (step-Fewer s w d p h).0 (step-Spent s w d p h b)

start-Spent : (s : Server) (w : World) (token : List ℕ) → Spent (start s w token)
unfolding start count_error connections requests
start-Spent s w token = ground arith

over-Spent :
    (p : Point × Run)
    → IsOver p.0
    → Spent p
    → (connections p.1.events ≤ 4) × (requests p.1.events ≤ 24)
over-Spent (retry_proxy_connect, r) over b = absurd (elim over [ inl e ↦ cc e | inr e ↦ cc e ])
over-Spent (retry_connect, r) over b = absurd (elim over [ inl e ↦ cc e | inr e ↦ cc e ])
over-Spent (finished, r) over b = b
over-Spent (thrown, r) over b = b

-- However the proxy, the system and the authentication provider answer, the handler returns or is left by
-- an exception within 28 jumps, and by then it has made at most four connections to the proxy and has sent at
-- most 24 CONNECT requests.
pub connection_handler-IsOver :
    (s : Server) (w : World) (d : Destination) (token : List ℕ)
    → let e = connection_handler s w d token in
      IsOver e.0 × (connections e.1.events ≤ 4) × (requests e.1.events ≤ 24)
unfolding connection_handler
connection_handler-IsOver s w d token =
    let over = connection_handler_ends s w d token in
    let (c, q) = over-Spent (connection_handler s w d token) over (
      run-Spent s w d enough_fuel (start s w token) (start-Within s w token).0
        (start-Spent s w token)) in
    (over, c, q)
