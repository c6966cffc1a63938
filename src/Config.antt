-- ===== src/Config.antt =====
-- infrastructure/config/ConfigManager.cpp. The lock makes each method one step. JSON is an interface,
-- Config.Json; Windows and the file system answer as parameters.
pub mod Entities
pub mod Json
pub mod Document
pub mod Load
pub mod RoundTrip
pub mod Stored
pub mod Settings
pub mod Coded
mod Tests
use tcp_redirector.Base64.Decoders.{config_decode}
use tcp_redirector.Base64.Stored.{config_encode}
use tcp_redirector.Prelude.{
  ℕ, Bool, true, false, not, ◌&&◌, List, [], ◌∷◌, ◌++◌, none, some, map, keep, ◌==◌, add64,
  if◌then◌else◌,
}
use tcp_redirector.RuleEngine.{process_name, proxy, Rule}
use tcp_redirector.Config.Entities.{
  kerberos_preferred, Config, ProxyConfig, LogLevel, trace, debug, info, warn, error, off, Store,
  Windows, FileApi,
}
use tcp_redirector.Config.Json.{JsonApi}
use tcp_redirector.Config.Document.{document}
use tcp_redirector.Config.Load.{localhost, daily, load_document}

abbrev pub is_empty : List ℕ → Bool
is_empty [] = true
is_empty (x ∷ xs) = false

-- `Config()`.
abbrev pub initial_config : Config
initial_config = record {
  app = record { exe_path = [] };
  proxy = record { host = localhost; port = 3128; enabled = true };
  auth = record {
    enabled = false;
    username = [];
    encrypted_password = [];
    kerberos = false;
    auth_mode = kerberos_preferred;
  };
  log = record { level = 2; file_enabled = true; max_size_mb = 10 };
  log_rotation = record {
    enabled = true;
    schedule = daily;
    hour = 3;
    minute = 0;
    max_age_days = 30;
    archive_dir = [];
    compress = true;
  };
  stats = record { update_interval_ms = 2000 };
}

-- The program that the default configuration names.
abbrev pub default_exe : List ℕ
default_exe =
    b'C' ∷ b':' ∷ 92 ∷ b'P' ∷ b'r' ∷ b'o' ∷ b'j' ∷ b'e' ∷ b'c' ∷ b't' ∷ b's' ∷ 92 ∷ b'c' ∷ b'h'
    ∷ b'i' ∷ b'n' ∷ b'a' ∷ 92 ∷ b'p' ∷ b'o' ∷ b'l' ∷ b'i' ∷ b'c' ∷ b'e' ∷ b'_' ∷ b's' ∷ b'e' ∷ b'c'
    ∷ 92 ∷ b'T' ∷ b'r' ∷ b'a' ∷ b'n' ∷ b's' ∷ b'f' ∷ b'e' ∷ b'r' ∷ b's' ∷ b'C' ∷ b'l' ∷ b'i' ∷ b'e'
    ∷ b'n' ∷ b't' ∷ b'.' ∷ b'e' ∷ b'x' ∷ b'e' ∷ []

abbrev pub default_pattern : List ℕ
default_pattern =
    b'T' ∷ b'r' ∷ b'a' ∷ b'n' ∷ b's' ∷ b'f' ∷ b'e' ∷ b'r' ∷ b's' ∷ b'C' ∷ b'l' ∷ b'i' ∷ b'e' ∷ b'n'
    ∷ b't' ∷ b'.' ∷ b'e' ∷ b'x' ∷ b'e' ∷ []

abbrev pub default_rule : Rule
default_rule = record {
  id = b'd' ∷ b'e' ∷ b'f' ∷ b'a' ∷ b'u' ∷ b'l' ∷ b't' ∷ [];
  type = process_name;
  action = proxy;
  pattern = default_pattern;
  description =
      b'R' ∷ b'e' ∷ b'd' ∷ b'i' ∷ b'r' ∷ b'e' ∷ b'c' ∷ b't' ∷ b' ' ∷ b'T' ∷ b'c' ∷ b'p' ∷ b'R'
      ∷ b'e' ∷ b'd' ∷ b'i' ∷ b'r' ∷ b'e' ∷ b'c' ∷ b't' ∷ b'o' ∷ b'r' ∷ b' ' ∷ b't' ∷ b'r' ∷ b'a'
      ∷ b'f' ∷ b'f' ∷ b'i' ∷ b'c' ∷ [];
  priority = 1;
  enabled = true;
  created = 0;
  modified = 0;
}

unfoldable pub add_listener : Store → Store × ℕ
add_listener s = (
  record s {
    listeners = s.next_listener_id ∷ s.listeners;
    next_listener_id = add64 s.next_listener_id 1;
  },
  s.next_listener_id,
)

unfoldable pub remove_listener : ℕ → Store → Store
remove_listener id s = record s { listeners = keep (λ l. not (l == id)) s.listeners }

-- Each listener is told the old and the new configuration.
unfoldable pub notify_listeners : Config → Store → Store
notify_listeners old s = record s {
  notices = map (λ l. (l, old, s.manager.config)) s.listeners ++ s.notices;
}

unfoldable pub encrypt_password : Windows → List ℕ → List ℕ
encrypt_password w plaintext = elim (w.protect plaintext) [
  | none ↦ []
  | some blob ↦ config_encode blob
]

unfoldable pub decrypt_password : Windows → List ℕ → List ℕ
decrypt_password w ciphertext =
    let raw = config_decode ciphertext in
    if is_empty raw then [] else elim (w.unprotect raw) [ none ↦ [] | some plain ↦ plain ]

unfoldable pub get_log_level : Store → LogLevel
get_log_level s =
    let level = s.manager.config.log.level in
    if level == 0
    then trace
    else if level == 1
    then debug
    else if level == 2
    then info
    else if level == 3
    then warn
    else if level == 4
    then error
    else info

-- What SetLogLevel stores.
unfoldable pub level_number : LogLevel → ℕ
level_number trace = 0
level_number debug = 1
level_number info = 2
level_number warn = 3
level_number error = 4
level_number off = 2

abbrev pub with_config : Config → Store → Store
with_config c s = record s { manager = record s.manager { config = c } }

unfoldable pub get_proxy_config : Windows → Store → ProxyConfig
get_proxy_config w s =
    let c = s.manager.config in
    let has = not (is_empty c.auth.encrypted_password) in
    record {
      host = w.to_wide c.proxy.host;
      port = c.proxy.port;
      auth_required = c.auth.enabled;
      kerberos_auth = c.auth.kerberos;
      login = w.to_wide c.auth.username;
      encrypted_password = [];
      has_password = has;
      plain_password = if has then decrypt_password w c.auth.encrypted_password else [];
    }

-- The configuration that SetProxyConfig makes.
unfoldable pub with_proxy : Windows → ProxyConfig → Config → Config
with_proxy w p c = record c {
  proxy = record { host = w.to_utf8 p.host; port = p.port; enabled = true };
  auth = record c.auth {
    enabled = p.auth_required;
    kerberos = p.kerberos_auth;
    username = w.to_utf8 p.login;
    encrypted_password =
        if p.has_password then encrypt_password w p.plain_password else c.auth.encrypted_password;
  };
}

unfoldable pub set_rules : List Rule → Store → Store × Bool
set_rules rules s = (record s { manager = record s.manager { rules = rules } }, true)

module _ (Js : JsonApi) (w : Windows) (f : FileApi) where
  unfoldable pub save_impl : Store → Store × Bool
  save_impl s =
      if f.creates && f.opens
      then elim (Js.dump (document Js w.to_utf8 s.manager)) [
        | none ↦ (s, false)
        | some t ↦
            if f.writes && f.renames
            then (record s { file = some (f.flush t) }, true)
            else (s, false)
      ]
      else (s, false)

  unfoldable pub create_default_config : Store → Store × Bool
  create_default_config s = save_impl (record s {
    manager = record {
      config = record initial_config {
        app = record { exe_path = default_exe };
        proxy = record { host = localhost; port = 8888; enabled = true };
      };
      rules = s.manager.rules ++ default_rule ∷ [];
    };
  })

  unfoldable pub load_impl : Store → Store × Bool
  load_impl s = elim s.file [
    | none ↦ create_default_config s
    | some t ↦
        if f.reads
        then elim (Js.parse t) [
          | none ↦ (s, false)
          | some j ↦
              let r = load_document Js w.to_wide j s.manager in (record s { manager = r.0 }, r.1)
        ]
        else (s, false)
  ]

  unfoldable pub set_proxy_config : ProxyConfig → Store → Store × Bool
  set_proxy_config p s =
      let old = s.manager.config in
      save_impl (notify_listeners old (with_config (with_proxy w p old) s))

  -- The listeners are told only after a save.
  unfoldable pub save_and_notify : Config → Store → Store × Bool
  save_and_notify new s =
      let r = save_impl (with_config new s) in
      if r.1 then (notify_listeners s.manager.config r.0, true) else r

  unfoldable pub set_log_level : LogLevel → Store → Store × Bool
  set_log_level level s =
      let c = s.manager.config in
      save_and_notify (record c { log = record c.log { level = level_number level } }) s

  unfoldable pub update_config : Config → Store → Store × Bool
  update_config new s =
      let stored = s.manager.config.auth.encrypted_password in
      save_and_notify
        (if is_empty new.auth.encrypted_password && not (is_empty stored)
          then record new { auth = record new.auth { encrypted_password = stored } }
          else new)
        s

  unfoldable pub update_config_no_save : Config → Store → Store × Bool
  update_config_no_save new s = (notify_listeners s.manager.config (with_config new s), true)

  unfoldable pub get_plain_password : Store → List ℕ
  get_plain_password s =
      let stored = s.manager.config.auth.encrypted_password in
      if is_empty stored then [] else decrypt_password w stored

  unfoldable pub set_password : List ℕ → Store → Store
  set_password plain s =
      let c = s.manager.config in
      (save_impl (
        with_config
          (record c { auth = record c.auth { encrypted_password = encrypt_password w plain } })
          s)).0
