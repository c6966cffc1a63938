-- ===== src/Relay/Entities.antt =====
-- What ConnectionHandler of infrastructure/relay/TcpRelayServer.h works on, with the results of
-- domain/ports/IAuthenticationProvider.h, and the answers that it gets.
use tcp_redirector.Prelude.{ℕ, Bool, List, ◌∷◌, Option}

pub data AuthProviderType : Type 0 where
  kerberos_agent basic : AuthProviderType

pub record CreateContextResult : Type 0 where
  pub success : Bool
  pub context_id : ℕ
  pub token : List ℕ
  pub needs_continue : Bool
  pub error_message : List ℕ

pub record ContinueContextResult : Type 0 where
  pub success : Bool
  pub token : List ℕ
  pub needs_continue : Bool
  pub error_message : List ℕ

-- What a handler does, for the record of a run.
pub data Event : Type 0 where
  resolved freed : Event
  proxy_opened proxy_closed client_closed : Event
  proxy_error latency_recorded bridge_started : Event
  context_created context_closed context_continued : ℕ → Event
  context_refused : Event
  sent received : List ℕ → Event

-- The members that the handler reads. `monitored`: a connection monitor is set.
pub record Server : Type 0 where
  pub proxy_host : List ℕ
  pub proxy_auth_required : Bool
  pub auth_provider : Option AuthProviderType
  pub monitored : Bool

-- The answers to a handler, given the events so far, the latest first.
pub record World : Type 0 where
  pub resolves : Bool
  pub opens : List Event → Bool
  pub connects : List Event → Bool
  pub sends : List Event → Bool
  -- The bytes of a `recv`, none of them if the connection was closed; `none` for SOCKET_ERROR.
  pub receives : List Event → Option (List ℕ)
  pub creates : List Event → CreateContextResult
  pub continues : List Event → List ℕ → ContinueContextResult
  -- What m_lastAuthToken holds when this handler reads it, given what this handler wrote last: the
  -- member is shared with the handlers of other connections.
  pub shared_token : List Event → List ℕ → List ℕ
  -- `inet_ntop`.
  pub address_text : ℕ → List ℕ

pub record Destination : Type 0 where
  pub dest_ip : ℕ
  pub dest_port : ℕ

-- The local variables of the handler; the context is there while `authContextActive`.
pub record Run : Type 0 where
  pub events : List Event
  pub gateway_retries : ℕ
  pub context : Option ℕ
  pub auth_retries : ℕ
  pub last_token : List ℕ

-- The labels of the source, the return, and an exception that leaves the handler.
pub data Point : Type 0 where
  retry_proxy_connect retry_connect finished thrown : Point

abbrev pub max_gateway_retries : ℕ
max_gateway_retries = 3

abbrev pub max_auth_retries : ℕ
max_auth_retries = 5

abbrev pub happen : Event → Run → Run
happen e r = record r { events = e ∷ r.events }
