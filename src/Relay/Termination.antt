-- ===== src/Relay/Termination.antt =====
-- TcpRelayServer.h: how many jumps ConnectionHandler makes.
use tcp_redirector.Prelude.{
  ℕ, zero, suc, ◌+◌, ◌-◌, ◌*◌, ◌≤◌, ◌<◌, ◌≡◌, ◌⊎◌, refl, List, Option, arith, inl, inr,
}
use tcp_redirector.Relay.Cases.{answered-cases, exchange-cases}
use tcp_redirector.Relay.{
  Server, World, Destination, Run, Point, retry_proxy_connect, retry_connect, finished, thrown,
  AuthProviderType, close_context, give_up, authorize, succeed, try_again, continue_context,
  create_late, challenged, refused, answered, exchange, reach_proxy, step, happen, sent, received,
  connect_request, run, start, enough_fuel, connection_handler,
}

-- The counters stay within their limits at the labels.
abbrev pub Within : Point × Run → Type 0
Within (retry_proxy_connect, r) = r.gateway_retries ≤ 3
Within (retry_connect, r) = (r.gateway_retries ≤ 3) × (r.auth_retries ≤ 5)
Within (finished, r) = Unit
Within (thrown, r) = Unit

-- The jumps that are left at most.
abbrev pub jumps_left : Point × Run → ℕ
jumps_left (retry_proxy_connect, r) = 7 * (4 - r.gateway_retries)
jumps_left (retry_connect, r) = 7 * (3 - r.gateway_retries) + (6 - r.auth_retries)
jumps_left (finished, r) = 0
jumps_left (thrown, r) = 0

abbrev Fewer : ℕ → Point × Run → Type 0
Fewer bound p = Within p × (jumps_left p < bound)

give_up-Fewer : (s : Server) (r : Run) (n : ℕ) → 0 < n → Fewer n (give_up s r)
unfolding give_up
give_up-Fewer s r n h = (tt, h)

pub authorize-same :
    (s : Server) (w : World) (r : Run)
    → let a = (authorize s w r).0 in
      (a.gateway_retries ≡ r.gateway_retries) × (a.auth_retries ≡ r.auth_retries)
unfolding authorize
authorize-same s w r = ground arith

close_context-same : (r : Run) → (close_context r).gateway_retries ≡ r.gateway_retries
unfolding close_context
close_context-same r = ground arith

refused-Fewer :
    (s : Server) (r : Run) (reply : List ℕ)
    → r.gateway_retries ≤ 3
    → r.auth_retries ≤ 5
    → Fewer (7 * (3 - r.gateway_retries) + (6 - r.auth_retries)) (refused s r reply)
unfolding refused give_up close_context
refused-Fewer s r reply h a = ground arith

challenged-Fewer :
    (s : Server) (w : World) (kind : AuthProviderType) (held : Option ℕ) (r : Run) (reply : List ℕ)
    → r.gateway_retries ≤ 3
    → r.auth_retries ≤ 5
    → Fewer (7 * (3 - r.gateway_retries) + (6 - r.auth_retries)) (challenged s w kind held r reply)
unfolding challenged continue_context create_late try_again give_up
challenged-Fewer s w kind held r reply g a = ground arith

answered-Fewer :
    (s : Server) (w : World) (r : Run) (reply : List ℕ)
    → r.gateway_retries ≤ 3
    → r.auth_retries ≤ 5
    → Fewer (7 * (3 - r.gateway_retries) + (6 - r.auth_retries)) (answered s w r reply)
unfolding answered succeed
answered-Fewer s w r reply g a =
    answered-cases (Fewer (7 * (3 - r.gateway_retries) + (6 - r.auth_retries))) s w r reply
      (λ e. (tt, omega arith)) (refused-Fewer s r reply g a)
      (λ kind. challenged-Fewer s w kind r.context r reply g a)

exchange-Fewer :
    (s : Server) (w : World) (d : Destination) (r : Run)
    → r.gateway_retries ≤ 3
    → r.auth_retries ≤ 5
    → Fewer (7 * (3 - r.gateway_retries) + (6 - r.auth_retries)) (exchange s w d r)
unfolding exchange give_up
exchange-Fewer s w d r g a =
    let (same_g, same_a) = authorize-same s w r in
    exchange-cases (Fewer (7 * (3 - r.gateway_retries) + (6 - r.auth_retries))) s w d r
      (tt, omega arith) (tt, omega arith) (tt, omega arith)
      (λ reply.
        let after =
          happen (received reply)
            (happen (sent (connect_request w d (authorize s w r).1)) (authorize s w r).0) in
        let (i, l) = answered-Fewer s w after reply (omega arith) (omega arith) in (i, omega arith))

reach_proxy-Fewer :
    (s : Server) (w : World) (r : Run)
    → r.gateway_retries ≤ 3
    → Fewer (7 * (4 - r.gateway_retries)) (reach_proxy s w r)
unfolding reach_proxy give_up
reach_proxy-Fewer s w r h = ground arith

pub step-Fewer :
    (s : Server) (w : World) (d : Destination) (p : Point × Run)
    → Within p
    → Within (step s w d p) × (jumps_left (step s w d p) ≤ jumps_left p - 1)
unfolding step
step-Fewer s w d (retry_proxy_connect, r) h =
    let (i, l) = reach_proxy-Fewer s w r h in (i, omega arith)
step-Fewer s w d (retry_connect, r) h =
    let (i, l) = exchange-Fewer s w d r h.0 h.1 in (i, omega arith)
step-Fewer s w d (finished, r) h = (tt, omega arith)
step-Fewer s w d (thrown, r) h = (tt, omega arith)

-- The handler has returned, or an exception has left it.
abbrev pub IsOver : Point → Type 0
IsOver at = (at ≡ finished) ⊎ (at ≡ thrown)

no_jumps_left : (p : Point × Run) → Within p → jumps_left p ≤ 0 → IsOver p.0
no_jumps_left (retry_proxy_connect, r) h l = absurd (omega arith)
no_jumps_left (retry_connect, r) h l = absurd (omega arith)
no_jumps_left (finished, r) h l = inl refl
no_jumps_left (thrown, r) h l = inr refl

run-IsOver :
    (s : Server) (w : World) (d : Destination) (fuel : ℕ) (p : Point × Run)
    → Within p
    → jumps_left p ≤ fuel
    → IsOver (run s w d fuel p).0
unfolding run
run-IsOver s w d zero p h l = no_jumps_left p h l
run-IsOver s w d (suc fuel) p h l =
    let (i, m) = step-Fewer s w d p h in run-IsOver s w d fuel (step s w d p) i (omega arith)

pub start-Within :
    (s : Server) (w : World) (token : List ℕ)
    → Within (start s w token) × (jumps_left (start s w token) ≤ enough_fuel)
unfolding start
start-Within s w token = ground arith

-- However the proxy, the system and the authentication provider answer, the handler returns or is left by
-- an exception within 28 jumps.
pub connection_handler_ends :
    (s : Server) (w : World) (d : Destination) (token : List ℕ)
    → IsOver (connection_handler s w d token).0
unfolding connection_handler
connection_handler_ends s w d token =
    let (i, l) = start-Within s w token in run-IsOver s w d enough_fuel (start s w token) i l
