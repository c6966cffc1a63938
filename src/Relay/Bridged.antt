-- ===== src/Relay/Bridged.antt =====
-- TcpRelayServer.h: which reply of the proxy lets ConnectionHandler start a bridge.
use tcp_redirector.Prelude.{
  ℕ, zero, suc, ◌≡◌, ◌⊎◌, ◌↔◌, true, List, [], ◌∷◌, ◌++◌, Option, none, some, arith, ◌∙◌, ◌<◌, refl,
  inl, inr, text_eq,
}
use tcp_redirector.Relay.Cases.{answered-cases, exchange-cases}
use tcp_redirector.Relay.Books.{tally, is_bridge_started, Balanced, step-Balanced, start-Balanced}
use tcp_redirector.Relay.Replies.{is_connected, http_1}
use tcp_redirector.Relay.{
  Server, World, Destination, Event, Run, Point, retry_proxy_connect, retry_connect, finished,
  thrown, sent, received, happen, AuthProviderType, kerberos_agent, basic, count_error,
  close_context, give_up, authorize, succeed, try_again, continue_context, create_late, challenged,
  refused, answered, exchange, connect_request, reach_proxy, step, run, start, enough_fuel,
  connection_handler,
}

-- The text of a status line for 200, whatever stands for the minor version.
abbrev pub IsOk : List ℕ → Type 0
IsOk reply =
    (minor : ℕ) × (rest : List ℕ) × (reply ≡ http_1 ++ (minor ∷ b' ' ∷ b'2' ∷ b'0' ∷ b'0' ∷ rest))

is_connected-IsOk : (reply : List ℕ) → is_connected reply ≡ true → IsOk reply
unfolding is_connected text_eq
is_connected-IsOk (a ∷ b ∷ c ∷ d ∷ e ∷ f ∷ g ∷ h ∷ i ∷ j ∷ k ∷ l ∷ rest) p = (h, rest, ground arith)
is_connected-IsOk reply p = ground arith

IsOk-is_connected : (reply : List ℕ) → IsOk reply → is_connected reply ≡ true
unfolding is_connected text_eq
IsOk-is_connected reply (minor, rest, e) = rw e (ground arith)

-- A reply passes the test for 200 exactly if it begins with "HTTP/1.", one more byte, and " 200".
pub is_connected_iff : (reply : List ℕ) → (is_connected reply ≡ true) ↔ IsOk reply
is_connected_iff reply = (is_connected-IsOk reply, IsOk-is_connected reply)

-- The reply that came last.
unfoldable pub last_reply : List Event → Option (List ℕ)
last_reply [] = none
last_reply (received reply ∷ es) = some reply
last_reply (_ ∷ es) = last_reply es

-- No bridge was started, or the last reply passed the test.
abbrev Answered : Point × Run → Type 0
Answered p =
    (tally is_bridge_started p.1.events ≡ 0)
    ⊎ ((reply : List ℕ) × (last_reply p.1.events ≡ some reply) × (is_connected reply ≡ true))

pub give_up-unbridged :
    (s : Server) (r : Run)
    → tally is_bridge_started r.events ≡ 0
    → tally is_bridge_started (give_up s r).1.events ≡ 0
unfolding give_up count_error close_context tally
give_up-unbridged s r h = ground arith

authorize-unbridged :
    (s : Server) (w : World) (r : Run)
    → tally is_bridge_started r.events ≡ 0
    → tally is_bridge_started (authorize s w r).0.events ≡ 0
unfolding authorize tally
authorize-unbridged s w r h = ground arith

refused-unbridged :
    (s : Server) (r : Run) (reply : List ℕ)
    → tally is_bridge_started r.events ≡ 0
    → tally is_bridge_started (refused s r reply).1.events ≡ 0
unfolding refused close_context tally
refused-unbridged s r reply h = ground (arith, give_up-unbridged s r h)

challenged-unbridged :
    (s : Server) (w : World) (kind : AuthProviderType) (held : Option ℕ) (r : Run) (reply : List ℕ)
    → tally is_bridge_started r.events ≡ 0
    → tally is_bridge_started (challenged s w kind held r reply).1.events ≡ 0
unfolding challenged continue_context create_late try_again give_up count_error close_context tally
challenged-unbridged s w kind none r reply h = ground arith
challenged-unbridged s w kerberos_agent (some i) r reply h = ground arith
challenged-unbridged s w basic (some i) r reply h = ground arith

succeed-last_reply :
    (s : Server) (r : Run) → last_reply (succeed s r).1.events ≡ last_reply r.events
unfolding succeed close_context last_reply
succeed-last_reply s r = ground arith

answered-Answered :
    (s : Server) (w : World) (r : Run) (reply : List ℕ)
    → tally is_bridge_started r.events ≡ 0
    → last_reply r.events ≡ some reply
    → Answered (answered s w r reply)
answered-Answered s w r reply h l =
    answered-cases Answered s w r reply (λ e. inr (reply, succeed-last_reply s r ∙ l, e))
      (inl (refused-unbridged s r reply h))
      (λ kind. inl (challenged-unbridged s w kind r.context r reply h))

exchange-Answered :
    (s : Server) (w : World) (d : Destination) (r : Run)
    → tally is_bridge_started r.events ≡ 0
    → Answered (exchange s w d r)
unfolding tally last_reply
exchange-Answered s w d r h =
    let ready = authorize-unbridged s w r h in
    exchange-cases Answered s w d r (inl (give_up-unbridged s _ ready))
      (inl (
        give_up-unbridged s
          (happen (sent (connect_request w d (authorize s w r).1)) (authorize s w r).0) ready))
      (inl ready) (λ reply. answered-Answered s w _ reply ready refl)

reach_proxy-unbridged :
    (s : Server) (w : World) (r : Run)
    → tally is_bridge_started r.events ≡ 0
    → tally is_bridge_started (reach_proxy s w r).1.events ≡ 0
unfolding reach_proxy give_up count_error close_context tally
reach_proxy-unbridged s w r h = ground arith

step-Answered :
    (s : Server) (w : World) (d : Destination) (p : Point × Run)
    → Balanced s 0 p
    → Answered p
    → Answered (step s w d p)
unfolding step
step-Answered s w d (retry_proxy_connect, r) b h =
    inl (reach_proxy-unbridged s w r (omega (arith, b.client)))
step-Answered s w d (retry_connect, r) b h = exchange-Answered s w d r (omega (arith, b.client))
step-Answered s w d (finished, r) b h = h
step-Answered s w d (thrown, r) b h = h

run-Answered :
    (s : Server) (w : World) (d : Destination) (fuel : ℕ) (p : Point × Run)
    → Balanced s 0 p
    → Answered p
    → Answered (run s w d fuel p)
unfolding run
run-Answered s w d zero p b h = h
run-Answered s w d (suc fuel) p b h =
    run-Answered s w d fuel (step s w d p) (step-Balanced s w d 0 p b) (step-Answered s w d p b h)

start-unbridged :
    (s : Server) (w : World) (token : List ℕ)
    → tally is_bridge_started (start s w token).1.events ≡ 0
unfolding start count_error tally
start-unbridged s w token = ground arith

-- If a handler started a bridge, then the last reply of the proxy in its run is a status line for 200.
pub connection_handler_bridge :
    (s : Server) (w : World) (d : Destination) (token : List ℕ)
    → 0 < tally is_bridge_started (connection_handler s w d token).1.events
    → (reply : List ℕ) × (last_reply (connection_handler s w d token).1.events ≡ some reply)
      × IsOk reply
unfolding connection_handler
connection_handler_bridge s w d token h =
    let p = start s w token in
    elim (run-Answered s w d enough_fuel p (start-Balanced s w 0 token)
      (inl (start-unbridged s w token))) [
        | inl e ↦ absurd (omega arith)
        | inr (reply, l, ok) ↦ (reply, l, is_connected-IsOk reply ok)
      ]
