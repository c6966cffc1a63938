-- ===== src/Relay/Books.antt =====
-- TcpRelayServer.h: the accounts of ConnectionHandler, which every step between two jumps keeps.
use tcp_redirector.Prelude.{
  ℕ, zero, suc, ◌+◌, ◌-◌, ◌≡◌, ◌==◌, Bool, true, false, List, [], ◌∷◌, Option, none, some, arith,
  if◌then◌else◌, refl,
}
use tcp_redirector.Relay.Cases.{answered-cases, exchange-cases}
use tcp_redirector.Relay.{
  Server, World, Destination, Event, Run, Point, retry_proxy_connect, retry_connect, finished,
  thrown, proxy_opened, proxy_closed, client_closed, proxy_error, bridge_started, context_created,
  context_closed, sent, received, resolved, freed, happen, AuthProviderType, kerberos_agent, basic,
  count_error, close_context, give_up, authorize, succeed, try_again, continue_context, create_late,
  challenged, refused, answered, exchange, connect_request, reach_proxy, step, run, start,
}

-- The number of the events of a kind.
unfoldable pub tally : (Event → Bool) → List Event → ℕ
tally p [] = 0
tally p (e ∷ es) = if p e then suc (tally p es) else tally p es

abbrev pub is_proxy_opened : Event → Bool
is_proxy_opened proxy_opened = true
is_proxy_opened _ = false

abbrev pub is_proxy_closed : Event → Bool
is_proxy_closed proxy_closed = true
is_proxy_closed _ = false

abbrev pub is_client_closed : Event → Bool
is_client_closed client_closed = true
is_client_closed _ = false

abbrev pub is_bridge_started : Event → Bool
is_bridge_started bridge_started = true
is_bridge_started _ = false

abbrev pub is_resolved : Event → Bool
is_resolved resolved = true
is_resolved _ = false

abbrev pub is_freed : Event → Bool
is_freed freed = true
is_freed _ = false

abbrev pub is_proxy_error : Event → Bool
is_proxy_error proxy_error = true
is_proxy_error _ = false

abbrev pub is_created : ℕ → Event → Bool
is_created id (context_created i) = i == id
is_created id _ = false

abbrev pub is_closed : ℕ → Event → Bool
is_closed id (context_closed i) = i == id
is_closed id _ = false

-- Whether the handler has come to its end, has a socket to the proxy, and holds the context.
abbrev pub ended : Point → ℕ
ended finished = 1
ended _ = 0

abbrev pub connected : Point → ℕ
connected retry_connect = 1
connected thrown = 1
connected _ = 0

abbrev pub holds : ℕ → Option ℕ → ℕ
holds id none = 0
holds id (some i) = if i == id then 1 else 0

-- Without a context no token was tried; away from the exchange there is no context.
abbrev pub IsIdle : Point → Run → Type 0
IsIdle retry_connect r = elim r.context [ none ↦ r.auth_retries ≡ 0 | some i ↦ Unit ]
IsIdle thrown r = Unit
IsIdle _ r = r.context ≡ none

pub record Books (s : Server) (id : ℕ) (at : Point) (r : Run) : Type 0 where
  pub client : tally is_client_closed r.events + tally is_bridge_started r.events ≡ ended at
  pub address : tally is_resolved r.events ≡ tally is_freed r.events + (1 - ended at)
  pub proxy :
      tally is_proxy_opened r.events
      ≡ tally is_proxy_closed r.events + tally is_bridge_started r.events + connected at
  pub context : tally (is_created id) r.events ≡ tally (is_closed id) r.events + holds id r.context
  pub errors :
      tally is_proxy_error r.events ≡ (if s.monitored then tally is_client_closed r.events else 0)
  pub idle : IsIdle at r

abbrev pub Balanced : Server → ℕ → Point × Run → Type 0
Balanced s id p = Books s id p.0 p.1

give_up-Balanced :
    (s : Server) (id : ℕ) (r : Run) → Books s id retry_connect r → Balanced s id (give_up s r)
unfolding give_up count_error close_context tally
give_up-Balanced s id r h = ground arith

authorize-Books :
    (s : Server) (w : World) (id : ℕ) (r : Run)
    → Books s id retry_connect r
    → Books s id retry_connect (authorize s w r).0
unfolding authorize tally
authorize-Books s w id r h = ground arith

succeed-Balanced :
    (s : Server) (id : ℕ) (r : Run) → Books s id retry_connect r → Balanced s id (succeed s r)
unfolding succeed close_context tally
succeed-Balanced s id r h = ground arith

refused-Balanced :
    (s : Server) (id : ℕ) (r : Run) (reply : List ℕ)
    → Books s id retry_connect r
    → Balanced s id (refused s r reply)
unfolding refused close_context tally
refused-Balanced s id r reply h = ground (arith, give_up-Balanced s id r h)

continue_context-Balanced :
    (s : Server) (w : World) (id : ℕ) (r : Run) (held : ℕ) (reply : List ℕ)
    → r.context ≡ some held
    → Books s id retry_connect r
    → Balanced s id (continue_context s w r held reply)
unfolding continue_context try_again give_up count_error close_context tally
continue_context-Balanced s w id r held reply e h = ground arith

create_late-Balanced :
    (s : Server) (w : World) (id : ℕ) (r : Run)
    → r.context ≡ none
    → Books s id retry_connect r
    → Balanced s id (create_late s w r)
unfolding create_late try_again give_up count_error close_context tally
create_late-Balanced s w id r e h = ground arith

challenged-Balanced :
    (s : Server) (w : World) (kind : AuthProviderType) (held : Option ℕ) (id : ℕ) (r : Run)
    (reply : List ℕ)
    → r.context ≡ held
    → Books s id retry_connect r
    → Balanced s id (challenged s w kind held r reply)
unfolding challenged
challenged-Balanced s w kind none id r reply e h = create_late-Balanced s w id r e h
challenged-Balanced s w kerberos_agent (some i) id r reply e h =
    continue_context-Balanced s w id r i reply e h
challenged-Balanced s w basic (some i) id r reply e h = give_up-Balanced s id r h

answered-Balanced :
    (s : Server) (w : World) (id : ℕ) (r : Run) (reply : List ℕ)
    → Books s id retry_connect r
    → Balanced s id (answered s w r reply)
answered-Balanced s w id r reply h =
    answered-cases (Balanced s id) s w r reply (λ e. succeed-Balanced s id r h)
      (refused-Balanced s id r reply h)
      (λ kind. challenged-Balanced s w kind r.context id r reply refl h)

-- What was sent and received is in no account.
sent-Books :
    (s : Server) (id : ℕ) (r : Run) (text : List ℕ)
    → Books s id retry_connect r
    → Books s id retry_connect (happen (sent text) r)
unfolding tally
sent-Books s id r text h = ground arith

received-Books :
    (s : Server) (id : ℕ) (r : Run) (text : List ℕ)
    → Books s id retry_connect r
    → Books s id retry_connect (happen (received text) r)
unfolding tally
received-Books s id r text h = ground arith

-- An exception leaves everything open.
thrown-Books : (s : Server) (id : ℕ) (r : Run) → Books s id retry_connect r → Books s id thrown r
thrown-Books s id r h = ground arith

exchange-Balanced :
    (s : Server) (w : World) (d : Destination) (id : ℕ) (r : Run)
    → Books s id retry_connect r
    → Balanced s id (exchange s w d r)
exchange-Balanced s w d id r h =
    let ready = authorize-Books s w id r h in
    let asked =
      sent-Books s id (authorize s w r).0 (connect_request w d (authorize s w r).1) ready in
    exchange-cases (Balanced s id) s w d r (give_up-Balanced s id _ ready)
      (give_up-Balanced s id _ asked) (thrown-Books s id _ asked)
      (λ reply. answered-Balanced s w id _ reply (received-Books s id _ reply asked))

reach_proxy-Balanced :
    (s : Server) (w : World) (id : ℕ) (r : Run)
    → Books s id retry_proxy_connect r
    → Balanced s id (reach_proxy s w r)
unfolding reach_proxy give_up count_error close_context tally
reach_proxy-Balanced s w id r h = ground arith

pub start-Balanced :
    (s : Server) (w : World) (id : ℕ) (token : List ℕ) → Balanced s id (start s w token)
unfolding start count_error tally
start-Balanced s w id token = ground arith

pub step-Balanced :
    (s : Server) (w : World) (d : Destination) (id : ℕ) (p : Point × Run)
    → Balanced s id p
    → Balanced s id (step s w d p)
unfolding step
step-Balanced s w d id (retry_proxy_connect, r) h = reach_proxy-Balanced s w id r h
step-Balanced s w d id (retry_connect, r) h = exchange-Balanced s w d id r h
step-Balanced s w d id (finished, r) h = h
step-Balanced s w d id (thrown, r) h = h

pub run-Balanced :
    (s : Server) (w : World) (d : Destination) (id : ℕ) (fuel : ℕ) (p : Point × Run)
    → Balanced s id p
    → Balanced s id (run s w d fuel p)
unfolding run
run-Balanced s w d id zero p h = h
run-Balanced s w d id (suc fuel) p h =
    run-Balanced s w d id fuel (step s w d p) (step-Balanced s w d id p h)
