-- ===== src/Relay.antt =====
-- The relay of the service (infrastructure/relay/TcpRelayServer.h): ConnectionHandler, as a machine that
-- stands at one of the two labels of the source. What the system, the proxy and the authentication
-- provider answer is the parameter `World`: each answer may depend on everything that happened before.
-- Logging, socket options and the sleep between retries are left out.
pub mod Entities
pub mod Replies
pub mod Books
pub mod Cases
pub mod Budget
pub mod Termination
pub mod Ledger
pub mod Bridged
pub mod Gateway
pub mod Throws
pub mod Bridge
pub mod Accept
pub mod Listening
pub mod Requests
mod Tests
pub use Entities.*
use Replies.{
  is_connected, demands_auth, is_gateway_error, until_nul, parse_407_challenge, to_string,
}
use tcp_redirector.Prelude.{
  ℕ, zero, suc, ◌+◌, Bool, true, false, List, [], ◌∷◌, ◌++◌, Option, none, some, ltb, if◌then◌else◌,
}

unfoldable pub count_error : Server → Run → Run
count_error s r = if s.monitored then happen proxy_error r else r

unfoldable pub close_context : Run → Run
close_context r = elim r.context [
  | none ↦ r
  | some id ↦ record r { events = context_closed id ∷ r.events; context = none }
]

-- The sockets closed and the address freed, as every failure past `connect` ends.
abbrev pub close_all : Run → Run
close_all r = happen freed (happen proxy_closed (happen client_closed r))

unfoldable pub give_up : Server → Run → Point × Run
unfolding count_error close_context
give_up s r = (finished, close_all (close_context (count_error s r)))

-- The provider that `m_proxyAuthRequired && m_authProvider` lets through.
unfoldable pub auth_of : Server → Option AuthProviderType
auth_of s = if s.proxy_auth_required then s.auth_provider else none

abbrev pub crlf : List ℕ
crlf = 13 ∷ 10 ∷ []

unfoldable pub auth_line : AuthProviderType → List ℕ → List ℕ
auth_line basic token =
    (b'P' ∷ b'r' ∷ b'o' ∷ b'x' ∷ b'y' ∷ b'-' ∷ b'A' ∷ b'u' ∷ b't' ∷ b'h' ∷ b'o' ∷ b'r' ∷ b'i' ∷ b'z'
      ∷ b'a' ∷ b't' ∷ b'i' ∷ b'o' ∷ b'n' ∷ b':' ∷ b' ' ∷ b'B' ∷ b'a' ∷ b's' ∷ b'i' ∷ b'c' ∷ b' '
      ∷ [])
    ++ token
    ++ crlf
auth_line kerberos_agent token =
    (b'P' ∷ b'r' ∷ b'o' ∷ b'x' ∷ b'y' ∷ b'-' ∷ b'A' ∷ b'u' ∷ b't' ∷ b'h' ∷ b'o' ∷ b'r' ∷ b'i' ∷ b'z'
      ∷ b'a' ∷ b't' ∷ b'i' ∷ b'o' ∷ b'n' ∷ b':' ∷ b' ' ∷ b'N' ∷ b'e' ∷ b'g' ∷ b'o' ∷ b't' ∷ b'i'
      ∷ b'a' ∷ b't' ∷ b'e' ∷ b' ' ∷ [])
    ++ token
    ++ crlf

unfoldable pub connect_request : World → Destination → List ℕ → List ℕ
connect_request w d auth =
    let target = w.address_text d.dest_ip ++ b':' ∷ to_string d.dest_port in
    (b'C' ∷ b'O' ∷ b'N' ∷ b'N' ∷ b'E' ∷ b'C' ∷ b'T' ∷ b' ' ∷ [])
    ++ (target
        ++ ((b' ' ∷ b'H' ∷ b'T' ∷ b'T' ∷ b'P' ∷ b'/' ∷ b'1' ∷ b'.' ∷ b'1' ∷ [])
            ++ (crlf
                ++ ((b'H' ∷ b'o' ∷ b's' ∷ b't' ∷ b':' ∷ b' ' ∷ [])
                    ++ (target
                        ++ (crlf
                            ++ (auth
                                ++ ((b'P' ∷ b'r' ∷ b'o' ∷ b'x' ∷ b'y' ∷ b'-' ∷ b'C' ∷ b'o' ∷ b'n'
                                      ∷ b'n' ∷ b'e' ∷ b'c' ∷ b't' ∷ b'i' ∷ b'o' ∷ b'n' ∷ b':' ∷ b' '
                                      ∷ b'K' ∷ b'e' ∷ b'e' ∷ b'p' ∷ b'-' ∷ b'A' ∷ b'l' ∷ b'i' ∷ b'v'
                                      ∷ b'e' ∷ [])
                                    ++ (crlf ++ crlf)))))))))

-- A context for this CONNECT if there is none yet, and the header line for it.
unfoldable pub authorize : Server → World → Run → Run × List ℕ
unfolding auth_line
authorize s w r = elim (auth_of s) [
  | none ↦ (r, [])
  | some kind ↦ elim r.context [
    | some id ↦ (r, auth_line kind (w.shared_token r.events r.last_token))
    | none ↦
        let made = w.creates r.events in
        if made.success
        then (
          record r {
            events = context_created made.context_id ∷ r.events;
            context = some made.context_id;
          },
          auth_line kind made.token,
        )
        else (happen context_refused r, [])
  ]
]

-- The reply is 200: the context is closed, and the sockets go to the bridge.
unfoldable pub succeed : Server → Run → Point × Run
unfolding close_context
succeed s r =
    let timed = if s.monitored then happen latency_recorded r else r in
    (finished, happen bridge_started (happen freed (close_context timed)))

-- A new token for the next CONNECT, unless there were too many.
unfoldable pub try_again : Run → (Run → Point × Run) → List ℕ → Point × Run
try_again r fail token =
    let next = record r { last_token = token; auth_retries = r.auth_retries + 1 } in
    if ltb max_auth_retries next.auth_retries then fail next else (retry_connect, next)

unfoldable pub is_empty : List ℕ → Bool
is_empty [] = true
is_empty (c ∷ cs) = false

unfoldable pub continue_context : Server → World → Run → ℕ → List ℕ → Point × Run
unfolding give_up try_again is_empty
continue_context s w r id reply =
    let challenge = parse_407_challenge (until_nul reply) in
    let result = w.continues r.events challenge in
    let asked = happen (context_continued id) r in
    if is_empty challenge
    then give_up s r
    else if result.success
    then if is_empty result.token then give_up s asked else try_again asked (give_up s) result.token
    else give_up s asked

-- The failure at the limit after a late context counts no error.
unfoldable pub create_late : Server → World → Run → Point × Run
unfolding give_up try_again close_context
create_late s w r =
    let made = w.creates r.events in
    if made.success
    then try_again
        (record r {
          events = context_created made.context_id ∷ r.events;
          context = some made.context_id;
        })
        (λ next. (finished, close_all (close_context next))) made.token
    else give_up s (happen context_refused r)

-- The reply asks for authentication.
unfoldable pub challenged :
    Server → World → AuthProviderType → Option ℕ → Run → List ℕ → Point × Run
unfolding give_up continue_context create_late
challenged s w kind none r reply = create_late s w r
challenged s w kerberos_agent (some id) r reply = continue_context s w r id reply
challenged s w basic (some id) r reply = give_up s r

-- Any other reply: a gateway error is tried again on a new connection.
unfoldable pub refused : Server → Run → List ℕ → Point × Run
unfolding give_up close_context
refused s r reply =
    if is_gateway_error reply
    then if ltb r.gateway_retries max_gateway_retries
      then (
        retry_proxy_connect,
        happen proxy_closed (close_context (record r { gateway_retries = r.gateway_retries + 1 })),
      )
      else give_up s r
    else give_up s r

unfoldable pub answered : Server → World → Run → List ℕ → Point × Run
unfolding succeed challenged refused
answered s w r reply =
    if is_connected reply
    then succeed s r
    else if demands_auth reply
    then elim (auth_of s) [
      | none ↦ refused s r reply
      | some kind ↦ challenged s w kind r.context r reply
    ]
    else refused s r reply

-- From `retry_connect` to the next jump. The text of the log message is made of the count that `recv`
-- returned before that count is tested: for a negative one `std::string` throws.
unfoldable pub exchange : Server → World → Destination → Run → Point × Run
exchange s w d r =
    let (ready, line) = authorize s w r in
    let asked = happen (sent (connect_request w d line)) ready in
    if w.sends ready.events
    then elim (w.receives asked.events) [
      | none ↦ (thrown, asked)
      | some reply ↦
          if is_empty reply
          then give_up s asked
          else answered s w (happen (received reply) asked) reply
    ]
    else give_up s ready

-- From `retry_proxy_connect` to `retry_connect`.
unfoldable pub reach_proxy : Server → World → Run → Point × Run
unfolding count_error give_up
reach_proxy s w r =
    let opened = record r { events = proxy_opened ∷ r.events; context = none; auth_retries = 0 } in
    if w.opens r.events
    then if w.connects opened.events then (retry_connect, opened) else give_up s opened
    else (finished, happen freed (happen client_closed (count_error s r)))

unfoldable pub step : Server → World → Destination → Point × Run → Point × Run
unfolding exchange reach_proxy
step s w d (retry_proxy_connect, r) = reach_proxy s w r
step s w d (retry_connect, r) = exchange s w d r
step s w d (finished, r) = (finished, r)
step s w d (thrown, r) = (thrown, r)

unfoldable pub run : Server → World → Destination → ℕ → Point × Run → Point × Run
unfolding step
run s w d zero p = p
run s w d (suc fuel) p = run s w d fuel (step s w d p)

-- The name of the proxy is resolved once, before the first label. `token` is what m_lastAuthToken holds.
unfoldable pub start : Server → World → List ℕ → Point × Run
unfolding count_error
start s w token =
    let r : Run = record {
      events = [];
      gateway_retries = 0;
      context = none;
      auth_retries = 0;
      last_token = token;
    } in
    if w.resolves
    then (retry_proxy_connect, happen resolved r)
    else (finished, happen client_closed (count_error s r))

-- Four connections of seven jumps each.
abbrev pub enough_fuel : ℕ
enough_fuel = 28

unfoldable pub connection_handler : Server → World → Destination → List ℕ → Point × Run
connection_handler s w d token = run s w d enough_fuel (start s w token)
