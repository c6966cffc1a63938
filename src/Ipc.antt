-- ===== src/Ipc.antt =====
-- adapters/driving/IpcHandler.h: what the requests of the GUI for the proxy and for the statistics do. An access
-- to the JSON document that throws ends the request, and `Handle` answers with what was thrown.
pub mod Replies
pub mod Requests
pub mod Synced
mod Tests
use tcp_redirector.Prelude.{
  ℕ, Bool, true, false, not, ◌&&◌, List, [], Option, none, some, ◌%◌, ltb, if◌then◌else◌, u16_mod,
}
use tcp_redirector.Config.Entities.{ProxyConfig, Store, Windows, FileApi}
use tcp_redirector.Config.Json.{
  JsonApi, host_key, port_key, auth_required_key, kerberos_key, login_key, set_password_key,
  password_key,
}
use tcp_redirector.Config.Load.{bind, value, required}
use tcp_redirector.Config.{get_proxy_config, set_proxy_config, save_impl}
use tcp_redirector.ConnectionTracker.{ConnectionTracker, get_aggregated_stats, set_uptime_seconds}

-- The answer to a set_config: success, one of its two errors, or an exception.
pub data Outcome : Type 0 where
  success not_saved not_persisted threw : Outcome

-- What a get_config answers.
pub record ProxyView : Type 0 where
  pub host : List ℕ
  pub port : ℕ
  pub auth_required : Bool
  pub has_password : Bool

unfoldable pub get_config : Windows → Store → ProxyView
get_config w s =
    let c = get_proxy_config w s in
    record {
      host = w.to_utf8 c.host;
      port = c.port;
      auth_required = c.auth_required;
      has_password = c.has_password;
    }

module _ (Js : JsonApi) (w : Windows) where
  -- `j["port"].get<uint16_t>()`.
  unfoldable pub required_port : Js.Json → Option ℕ
  required_port j =
      if Js.is_object j
      then elim (Js.field j port_key) [
        | none ↦ none
        | some v ↦ bind (Js.get_number v) (λ n. some (n % u16_mod))
      ]
      else none

  -- The password of a request, empty if none is set.
  unfoldable pub new_password : Bool → Js.Json → Option (List ℕ)
  new_password set j =
      if set
      then bind (value Js w.to_wide Js.get_text j password_key []) (λ t. some (w.to_wide t))
      else some []

  -- The proxy that a request describes; Kerberos implies authentication.
  unfoldable pub parse_proxy : List ℕ → Option ProxyConfig
  parse_proxy params = bind (Js.parse params) (λ j. bind (required Js w.to_wide j host_key) (λ host.
      bind (required_port j) (λ port.
        bind (value Js w.to_wide Js.get_flag j auth_required_key false) (λ auth.
          bind (value Js w.to_wide Js.get_flag j kerberos_key false) (λ kerberos.
            bind (value Js w.to_wide Js.get_text j login_key []) (λ login.
              bind (value Js w.to_wide Js.get_flag j set_password_key false) (λ has.
                bind (new_password has j) (λ password. some (record {
                  host = w.to_wide host;
                  port = port;
                  auth_required = if kerberos && not auth then true else auth;
                  kerberos_auth = kerberos;
                  login = w.to_wide login;
                  encrypted_password = [];
                  has_password = has;
                  plain_password = password;
                })))))))))

  -- The file is saved twice, by SetProxyConfig and by Save: `f` and `g` answer the two.
  unfoldable pub set_proxy : FileApi → FileApi → Option ProxyConfig → Store → Store × Outcome
  set_proxy f g none s = (s, threw)
  set_proxy f g (some p) s =
      let r = set_proxy_config Js w f p s in
      let saved = save_impl Js w g r.0 in
      if r.1
      then (if saved.1 then (saved.0, success) else (saved.0, not_persisted))
      else (r.0, not_saved)

  unfoldable pub set_config : FileApi → FileApi → List ℕ → Store → Store × Outcome
  set_config f g params s = set_proxy f g (parse_proxy params) s

-- What the callbacks return, `none` for one that is not given.
pub record Callbacks : Type 0 where
  pub relay_bytes : Option (ℕ × ℕ)
  pub active_count : Option ℕ
  pub uptime : Option ℕ

pub record StatsView : Type 0 where
  pub active_connections : ℕ
  pub total_rx_bytes : ℕ
  pub total_tx_bytes : ℕ
  pub proxy_errors : ℕ
  pub avg_latency_ms : ℕ
  pub uptime_seconds : ℕ

-- The larger of what the tracker has counted and what a callback returns.
unfoldable pub at_least : Option ℕ → ℕ → ℕ
at_least none n = n
at_least (some m) n = if ltb n m then m else n

unfoldable pub get_stats : Callbacks → ConnectionTracker → ConnectionTracker × StatsView
get_stats c t =
    let stats = get_aggregated_stats t in
    (
      elim c.uptime [ none ↦ t | some u ↦ set_uptime_seconds u t ],
      record {
        active_connections = elim c.active_count [ none ↦ stats.active_connections | some n ↦ n ];
        total_rx_bytes = at_least (bind c.relay_bytes (λ b. some b.0)) stats.total_rx_bytes;
        total_tx_bytes = at_least (bind c.relay_bytes (λ b. some b.1)) stats.total_tx_bytes;
        proxy_errors = stats.proxy_errors;
        avg_latency_ms = stats.avg_latency_ms;
        uptime_seconds = stats.uptime_seconds;
      },
    )
