-- ===== src/Relay/Gateway.antt =====
-- TcpRelayServer.h: the retries of ConnectionHandler after a gateway error.
use tcp_redirector.Prelude.{
  ℕ, zero, suc, ◌+◌, ◌≡◌, true, false, List, [], ◌∷◌, none, some, arith, refl, ap, ◌∙◌, contains,
  starts_with, if◌then◌else◌, leb, ltb, Bool-cases, inl, inr,
}
use tcp_redirector.Relay.Books.{tally, is_bridge_started, is_proxy_opened}
use tcp_redirector.Relay.Bridged.{give_up-unbridged}
use tcp_redirector.Relay.Replies.{is_connected, is_gateway_error}
use tcp_redirector.Relay.{
  proxy_closed, Server, World, Destination, Event, Run, Point, retry_proxy_connect, retry_connect,
  finished, thrown, is_empty, resolved, proxy_opened, sent, received, close_context, give_up,
  auth_of, authorize, succeed, refused, answered, exchange, connect_request, reach_proxy, step, run,
  start, enough_fuel, connection_handler,
}

-- The network is up, and the proxy answers the first `failing` connections with one reply and the others
-- with another.
pub record Serves (w : World) (failing : ℕ) (bad good : List ℕ) : Type 0 where
  pub resolved : w.resolves ≡ true
  pub opened : (es : List Event) → w.opens es ≡ true
  pub connected : (es : List Event) → w.connects es ≡ true
  pub sending : (es : List Event) → w.sends es ≡ true
  pub answering :
      (es : List Event)
      → w.receives es ≡ some (if leb (tally is_proxy_opened es) failing then bad else good)

-- The variables of a handler that holds no context.
abbrev plain_run : List Event → ℕ → List ℕ → Run
plain_run es g token = record {
  events = es;
  gateway_retries = g;
  context = none;
  auth_retries = 0;
  last_token = token;
}

abbrev bridges : Point × Run → ℕ
bridges p = tally is_bridge_started p.1.events

-- A reply of either kind is not empty.
is_connected_full : (reply : List ℕ) → is_connected reply ≡ true → is_empty reply ≡ false
unfolding is_empty is_connected
is_connected_full [] e = cc
is_connected_full (c ∷ cs) e = refl

is_gateway_error_full : (reply : List ℕ) → is_gateway_error reply ≡ true → is_empty reply ≡ false
unfolding is_empty is_gateway_error contains starts_with
is_gateway_error_full [] e = cc
is_gateway_error_full (c ∷ cs) e = refl

module _ (s : Server) (w : World) (d : Destination) (token : List ℕ)
    (plain : auth_of s ≡ none) where
  authorize_lem :
      (es : List Event) (g : ℕ) → authorize s w (plain_run es g token) ≡ (plain_run es g token, [])
  unfolding authorize
  authorize_lem es g = rw (plain, authorize) refl

  -- An exchange without authentication.
  exchange_lem :
      (es : List Event) (g : ℕ) (reply : List ℕ)
      → w.sends es ≡ true
      → w.receives (sent (connect_request w d []) ∷ es) ≡ some reply
      → is_empty reply ≡ false
      → exchange s w d (plain_run es g token)
        ≡ answered s w
            (plain_run (received reply ∷ sent (connect_request w d []) ∷ es) g token)
            reply
  exchange_lem es g reply e f n =
      unfold exchange in simp (authorize_lem es g, e, f, n, exchange) refl

  answered-good :
      (es : List Event) (g : ℕ) (reply : List ℕ)
      → is_connected reply ≡ true
      → tally is_bridge_started es ≡ 0
      → ((answered s w (plain_run es g token) reply).0 ≡ finished)
        × (bridges (answered s w (plain_run es g token) reply) ≡ 1)
  unfolding answered succeed close_context tally
  answered-good es g reply e h = rw (e, answered) (ground arith)

  answered-bad :
      (es : List Event) (g : ℕ) (reply : List ℕ)
      → is_connected reply ≡ false
      → answered s w (plain_run es g token) reply ≡ refused s (plain_run es g token) reply
  unfolding answered
  answered-bad es g reply e = ground (arith, plain)

  refused-again :
      (es : List Event) (g : ℕ) (reply : List ℕ)
      → is_gateway_error reply ≡ true
      → refused s (plain_run es g token) reply ≡ (
          if ltb g 3
          then (retry_proxy_connect, plain_run (proxy_closed ∷ es) (g + 1) token)
          else give_up s (plain_run es g token))
  unfolding refused close_context
  refused-again es g reply e = rw (e, refused) refl

  run_stays : (fuel : ℕ) (r : Run) → run s w d fuel (finished, r) ≡ (finished, r)
  unfolding run step
  run_stays zero r = refl
  run_stays (suc fuel) r = run_stays fuel r

  run-ended : (fuel : ℕ) (p : Point × Run) → p.0 ≡ finished → bridges (run s w d fuel p) ≡ bridges p
  run-ended fuel (retry_proxy_connect, r) e = cc
  run-ended fuel (retry_connect, r) e = cc
  run-ended fuel (thrown, r) e = cc
  run-ended fuel (finished, r) e = rw (run_stays fuel r) refl

  -- One connection: the two jumps from the first label.
  abbrev turn : List Event → ℕ → Point × Run
  turn es g = step s w d (step s w d (retry_proxy_connect, plain_run es g token))

  abbrev heard : List ℕ → List Event → List Event
  heard reply es = received reply ∷ sent (connect_request w d []) ∷ proxy_opened ∷ es

  module _ (failing : ℕ) (bad good : List ℕ) (net : Serves w failing bad good) where
    turn_lem :
        (es : List Event) (g : ℕ) (reply : List ℕ)
        → (if leb (suc (tally is_proxy_opened es)) failing then bad else good) ≡ reply
        → is_empty reply ≡ false
        → turn es g ≡ answered s w (plain_run (heard reply es) g token) reply
    unfolding step reach_proxy tally
    turn_lem es g reply e n =
        let opened = proxy_opened ∷ es in
        let first : step s w d (retry_proxy_connect, plain_run es g token)
            ≡ (retry_connect, plain_run opened g token) =
          simp (net.opened es, net.connected opened, reach_proxy, step) refl in
        ap (step s w d) first
        ∙ exchange_lem opened g reply (net.sending opened)
            (net.answering (sent (connect_request w d []) ∷ opened) ∙ ap (λ t. some t) e) n

    module _ (bad_fails : is_connected bad ≡ false) (bad_gateway : is_gateway_error bad ≡ true)
        (good_connects : is_connected good ≡ true) where
      good_turn :
          (es : List Event) (g fuel : ℕ)
          → tally is_bridge_started es ≡ 0
          → leb (suc (tally is_proxy_opened es)) failing ≡ false
          → bridges (run s w d fuel (turn es g)) ≡ 1
      unfolding tally
      good_turn es g fuel b l =
          let (over, one) = answered-good (heard good es) g good good_connects b in
          rw (turn_lem es g good (rw l refl) (is_connected_full good good_connects))
            (run-ended fuel _ over ∙ one)

      bad_turn :
          (es : List Event) (g : ℕ)
          → leb (suc (tally is_proxy_opened es)) failing ≡ true
          → turn es g ≡ (
              if ltb g 3
              then (retry_proxy_connect, plain_run (proxy_closed ∷ heard bad es) (g + 1) token)
              else give_up s (plain_run (heard bad es) g token))
      bad_turn es g l =
          turn_lem es g bad (rw l refl) (is_gateway_error_full bad bad_gateway)
          ∙ answered-bad (heard bad es) g bad bad_fails
          ∙ refused-again (heard bad es) g bad bad_gateway

      -- The jumps of `m` more retries and of the connection after them, and some to spare.
      abbrev jumps : ℕ → ℕ → ℕ
      jumps spare zero = suc (suc spare)
      jumps spare (suc m) = suc (suc (jumps spare m))

      last_turn :
          (g spare : ℕ) (es : List Event)
          → g ≡ 3
          → tally is_bridge_started es ≡ 0
          → leb (suc (tally is_proxy_opened es)) failing ≡ true
          → bridges (run s w d spare (turn es g)) ≡ 0
      unfolding tally
      last_turn g spare es e b l =
          let f : ltb g 3 ≡ false = ground arith in
          let stopped : turn es g ≡ give_up s (plain_run (heard bad es) g token) =
            bad_turn es g l ∙ rw f refl in
          rw stopped (
            run-ended spare (give_up s (plain_run (heard bad es) g token)) (unfold give_up in refl)
            ∙ give_up-unbridged s (plain_run (heard bad es) g token) b)

      run_turns :
          (spare m g : ℕ) (es : List Event)
          → g + m ≡ 3
          → tally is_proxy_opened es ≡ g
          → tally is_bridge_started es ≡ 0
          → bridges (run s w d (jumps spare m) (retry_proxy_connect, plain_run es g token))
            ≡ (if leb failing 3 then 1 else 0)
      unfolding run tally
      run_turns spare zero g es e o b =
          elim (Bool-cases (leb (suc (tally is_proxy_opened es)) failing)) [
            | inl l ↦ last_turn g spare es (omega arith) b l ∙ ground arith
            | inr l ↦ good_turn es g spare b l ∙ ground arith
          ]
      run_turns spare (suc m) g es e o b =
          elim (Bool-cases (leb (suc (tally is_proxy_opened es)) failing)) [
            | inl l ↦
                let f : ltb g 3 ≡ true = ground arith in
                ap (λ p. bridges (run s w d (jumps spare m) p)) (bad_turn es g l ∙ rw f refl)
                ∙ run_turns spare m (g + 1) (proxy_closed ∷ heard bad es) (omega arith)
                    (omega arith) b
            | inr l ↦ good_turn es g (jumps spare m) b l ∙ ground arith
          ]

-- Without authentication, while the network is up, let the proxy answer the first `failing` connections
-- with one reply and every other with another, where the first reply is a gateway error and no 200, and the
-- second is a 200. Then the handler ends with exactly one bridge if at most three connections fail so, and
-- with none if more do.
pub connection_handler_retries :
    (s : Server) (w : World) (d : Destination) (token : List ℕ) (failing : ℕ) (bad good : List ℕ)
    → auth_of s ≡ none
    → Serves w failing bad good
    → is_connected bad ≡ false
    → is_gateway_error bad ≡ true
    → is_connected good ≡ true
    → tally is_bridge_started (connection_handler s w d token).1.events
      ≡ (if leb failing 3 then 1 else 0)
unfolding connection_handler tally
connection_handler_retries s w d token failing bad good plain net b g k =
    let first : start s w token ≡ (retry_proxy_connect, plain_run (resolved ∷ []) 0 token) =
      unfold start in simp (net.resolved, start) refl in
    ap (λ p. bridges (run s w d enough_fuel p)) first
    ∙ run_turns s w d token plain failing bad good net b g k 20 3 0 (resolved ∷ []) refl refl refl
