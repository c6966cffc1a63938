-- ===== src/Relay/Requests.antt =====
-- TcpRelayServer.h: the CONNECT requests that ConnectionHandler sends.
use tcp_redirector.Prelude.{
  ℕ, zero, suc, ◌≡◌, List, [], ◌∷◌, ◌++◌, Option, none, some, All, arith, ap, append_assoc,
}
use tcp_redirector.Relay.Cases.{answered-cases, exchange-cases}
use tcp_redirector.Relay.Replies.{to_string}
use tcp_redirector.Relay.{
  Server, World, Destination, Event, Run, Point, retry_proxy_connect, retry_connect, finished,
  thrown, sent, happen, AuthProviderType, kerberos_agent, basic, count_error, close_context,
  give_up, authorize, succeed, try_again, continue_context, create_late, challenged, refused,
  answered, exchange, connect_request, reach_proxy, step, run, start, enough_fuel,
  connection_handler,
}

-- A request begins with `CONNECT `, the address, a colon, the port and a blank.
abbrev pub IsFor : World → Destination → List ℕ → Type 0
IsFor w d text =
    (rest : List ℕ) × (text
      ≡ (b'C' ∷ b'O' ∷ b'N' ∷ b'N' ∷ b'E' ∷ b'C' ∷ b'T' ∷ b' ' ∷ [])
        ++ (w.address_text d.dest_ip ++ b':' ∷ (to_string d.dest_port ++ b' ' ∷ rest)))

-- Of the events only requests are asked about.
abbrev pub Names : World → Destination → Event → Type 0
Names w d (sent text) = IsFor w d text
Names w d _ = Unit

connect_request-IsFor :
    (w : World) (d : Destination) (line : List ℕ) → IsFor w d (connect_request w d line)
unfolding connect_request
connect_request-IsFor w d line =
    let address = w.address_text d.dest_ip in
    let port = to_string d.dest_port in
    (
      _,
      ap (λ t. b'C' ∷ b'O' ∷ b'N' ∷ b'N' ∷ b'E' ∷ b'C' ∷ b'T' ∷ b' ' ∷ t)
          (append_assoc address (b':' ∷ port) _),
    )

module _ (w : World) (d : Destination) where
  abbrev Clean : Run → Type 0
  Clean r = All (Names w d) r.events

  give_up-Clean : (s : Server) (r : Run) → Clean r → Clean (give_up s r).1
  unfolding give_up count_error close_context
  give_up-Clean s r h = ground arith

  authorize-Clean : (s : Server) (r : Run) → Clean r → Clean (authorize s w r).0
  unfolding authorize
  authorize-Clean s r h = ground arith

  succeed-Clean : (s : Server) (r : Run) → Clean r → Clean (succeed s r).1
  unfolding succeed close_context
  succeed-Clean s r h = ground arith

  refused-Clean : (s : Server) (r : Run) (reply : List ℕ) → Clean r → Clean (refused s r reply).1
  unfolding refused close_context
  refused-Clean s r reply h = ground (arith, give_up-Clean s r h)

  challenged-Clean :
      (s : Server) (kind : AuthProviderType) (held : Option ℕ) (r : Run) (reply : List ℕ)
      → Clean r
      → Clean (challenged s w kind held r reply).1
  unfolding challenged continue_context create_late try_again give_up count_error close_context
  challenged-Clean s kind none r reply h = ground arith
  challenged-Clean s kerberos_agent (some i) r reply h = ground arith
  challenged-Clean s basic (some i) r reply h = ground arith

  reach_proxy-Clean : (s : Server) (r : Run) → Clean r → Clean (reach_proxy s w r).1
  unfolding reach_proxy give_up count_error close_context
  reach_proxy-Clean s r h = ground arith

  answered-Clean :
      (s : Server) (r : Run) (reply : List ℕ) → Clean r → Clean (answered s w r reply).1
  answered-Clean s r reply h =
      answered-cases (λ (p : Point × Run). Clean p.1) s w r reply (λ e. succeed-Clean s r h)
        (refused-Clean s r reply h) (λ kind. challenged-Clean s kind r.context r reply h)

  exchange-Clean : (s : Server) (r : Run) → Clean r → Clean (exchange s w d r).1
  exchange-Clean s r h =
      let ready = authorize-Clean s r h in
      let line = (authorize s w r).1 in
      let asked : Clean (happen (sent (connect_request w d line)) (authorize s w r).0) =
        (connect_request-IsFor w d line, ready) in
      exchange-cases (λ (p : Point × Run). Clean p.1) s w d r
        (give_up-Clean s (authorize s w r).0 ready) (give_up-Clean s _ asked) asked
        (λ reply. answered-Clean s _ reply (tt, asked))

  step-Clean : (s : Server) (p : Point × Run) → Clean p.1 → Clean (step s w d p).1
  unfolding step
  step-Clean s (retry_proxy_connect, r) h = reach_proxy-Clean s r h
  step-Clean s (retry_connect, r) h = exchange-Clean s r h
  step-Clean s (finished, r) h = h
  step-Clean s (thrown, r) h = h

  run-Clean : (s : Server) (fuel : ℕ) (p : Point × Run) → Clean p.1 → Clean (run s w d fuel p).1
  unfolding run
  run-Clean s zero p h = h
  run-Clean s (suc fuel) p h = run-Clean s fuel (step s w d p) (step-Clean s p h)

  start-Clean : (s : Server) (token : List ℕ) → Clean (start s w token).1
  unfolding start count_error
  start-Clean s token = ground arith

  pub connection_handler-Names :
      (s : Server) (token : List ℕ) → All (Names w d) (connection_handler s w d token).1.events
  unfolding connection_handler
  connection_handler-Names s token = run-Clean s enough_fuel (start s w token) (start-Clean s token)
