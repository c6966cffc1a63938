-- ===== src/Config/Document.antt =====
-- SaveImpl and RulesToJson of infrastructure/config/ConfigManager.cpp: the document. The assignments to a section
-- stand together in the source, and make one object here.
use tcp_redirector.Prelude.{ℕ, List, [], ◌∷◌, map}
use tcp_redirector.RuleEngine.{
  RuleType, process_name, process_path, global, RuleAction, proxy, direct, block, Rule,
}
use tcp_redirector.Config.Entities.{
  AppSettings, ProxySettings, AuthSettings, LogSettings, LogRotationSettings, StatsSettings,
  ConfigManager,
}
use tcp_redirector.Config.Json.{
  JsonApi, app_key, exe_path_key, proxy_key, host_key, port_key, enabled_key, auth_key,
  username_key, encrypted_password_key, kerberos_key, log_key, level_key, file_enabled_key,
  max_size_mb_key, log_rotation_key, schedule_key, hour_key, minute_key, max_age_days_key,
  archive_dir_key, compress_key, stats_key, update_interval_ms_key, rules_key, id_key, pattern_key,
  description_key, priority_key, type_key, action_key,
}

abbrev pub process_name_text : List ℕ
process_name_text =
    b'p' ∷ b'r' ∷ b'o' ∷ b'c' ∷ b'e' ∷ b's' ∷ b's' ∷ b'_' ∷ b'n' ∷ b'a' ∷ b'm' ∷ b'e' ∷ []

abbrev pub process_path_text : List ℕ
process_path_text =
    b'p' ∷ b'r' ∷ b'o' ∷ b'c' ∷ b'e' ∷ b's' ∷ b's' ∷ b'_' ∷ b'p' ∷ b'a' ∷ b't' ∷ b'h' ∷ []

abbrev pub global_text : List ℕ
global_text = b'g' ∷ b'l' ∷ b'o' ∷ b'b' ∷ b'a' ∷ b'l' ∷ []

abbrev pub proxy_text : List ℕ
proxy_text = b'p' ∷ b'r' ∷ b'o' ∷ b'x' ∷ b'y' ∷ []

abbrev pub direct_text : List ℕ
direct_text = b'd' ∷ b'i' ∷ b'r' ∷ b'e' ∷ b'c' ∷ b't' ∷ []

abbrev pub block_text : List ℕ
block_text = b'b' ∷ b'l' ∷ b'o' ∷ b'c' ∷ b'k' ∷ []

unfoldable pub type_text : RuleType → List ℕ
type_text process_path = process_path_text
type_text global = global_text
type_text process_name = process_name_text

unfoldable pub action_text : RuleAction → List ℕ
action_text direct = direct_text
action_text block = block_text
action_text proxy = proxy_text

-- `to_utf8` is WideToUtf8.
module _ (Js : JsonApi) (to_utf8 : List ℕ → List ℕ) where
  unfoldable pub rule_to_json : Rule → Js.Json
  rule_to_json r =
      Js.put
        (Js.put
          (Js.put
            (Js.put
              (Js.put
                (Js.put (Js.put Js.null id_key (Js.text r.id)) pattern_key
                  (Js.text (to_utf8 r.pattern)))
                description_key (Js.text (to_utf8 r.description)))
              priority_key (Js.number r.priority))
            enabled_key (Js.flag r.enabled))
          type_key (Js.text (type_text r.type)))
        action_key (Js.text (action_text r.action))

  unfoldable pub rules_to_json : List Rule → Js.Json
  rules_to_json rules = Js.array (map rule_to_json rules)

  unfoldable pub save_app : AppSettings → Js.Json
  save_app a = Js.put Js.null exe_path_key (Js.text (to_utf8 a.exe_path))

  unfoldable pub save_proxy : ProxySettings → Js.Json
  save_proxy p =
      Js.put (Js.put (Js.put Js.null host_key (Js.text p.host)) port_key (Js.number p.port))
        enabled_key (Js.flag p.enabled)

  unfoldable pub save_auth : AuthSettings → Js.Json
  save_auth a =
      Js.put
        (Js.put
          (Js.put (Js.put Js.null enabled_key (Js.flag a.enabled)) username_key
            (Js.text a.username))
          encrypted_password_key (Js.text a.encrypted_password))
        kerberos_key (Js.flag a.kerberos)

  unfoldable pub save_log : LogSettings → Js.Json
  save_log l =
      Js.put
        (Js.put (Js.put Js.null level_key (Js.number l.level)) file_enabled_key
          (Js.flag l.file_enabled))
        max_size_mb_key (Js.number l.max_size_mb)

  unfoldable pub save_log_rotation : LogRotationSettings → Js.Json
  save_log_rotation l =
      Js.put
        (Js.put
          (Js.put
            (Js.put
              (Js.put
                (Js.put (Js.put Js.null enabled_key (Js.flag l.enabled)) schedule_key
                  (Js.text l.schedule))
                hour_key (Js.number l.hour))
              minute_key (Js.number l.minute))
            max_age_days_key (Js.number l.max_age_days))
          archive_dir_key (Js.text l.archive_dir))
        compress_key (Js.flag l.compress)

  unfoldable pub save_stats : StatsSettings → Js.Json
  save_stats s = Js.put Js.null update_interval_ms_key (Js.number s.update_interval_ms)

  unfoldable pub document : ConfigManager → Js.Json
  document m =
      Js.put
        (Js.put
          (Js.put
            (Js.put
              (Js.put
                (Js.put (Js.put Js.null app_key (save_app m.config.app)) proxy_key
                  (save_proxy m.config.proxy))
                auth_key (save_auth m.config.auth))
              log_key (save_log m.config.log))
            log_rotation_key (save_log_rotation m.config.log_rotation))
          stats_key (save_stats m.config.stats))
        rules_key (rules_to_json m.rules)
