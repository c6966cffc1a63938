-- ===== src/Config/RoundTrip.antt =====
-- ConfigManager.cpp: what LoadImpl makes of the document that SaveImpl writes.
use tcp_redirector.Prelude.{
  ℕ, ◌≡◌, ◌<◌, ◌%◌, true, List, [], ◌∷◌, some, All, map, refl, ◌∙◌, arith, text_eq, u16_mod,
}
use tcp_redirector.RuleEngine.{
  RuleType, process_name, process_path, global, RuleAction, proxy, direct, block, Rule,
}
use tcp_redirector.Config.Entities.{
  AppSettings, ProxySettings, AuthSettings, LogSettings, LogRotationSettings, StatsSettings,
  ConfigManager, Config,
}
use tcp_redirector.Config.Json.{
  JsonApi, IsLawful, Key, app_key, proxy_key, auth_key, log_key, stats_key, log_rotation_key,
  rules_key,
}
use tcp_redirector.Config.Document.{
  type_text, action_text, rule_to_json, rules_to_json, save_app, save_proxy, save_auth, save_log,
  save_log_rotation, save_stats, document,
}
use tcp_redirector.Config.Load.{
  Assign, assign, then_also, type_of, action_of, value, required, json_to_rule, rules_from,
  load_app, load_proxy, load_auth, load_log, load_stats, load_log_rotation, section, load_config,
  load_rules, load_document,
}

type_of-type_text : (t : RuleType) → type_of (type_text t) ≡ t
unfolding type_of type_text text_eq
type_of-type_text process_name = refl
type_of-type_text process_path = refl
type_of-type_text global = refl

action_of-action_text : (a : RuleAction) → action_of (action_text a) ≡ a
unfolding action_of action_text text_eq
action_of-action_text proxy = refl
action_of-action_text direct = refl
action_of-action_text block = refl

-- A text that the conversions give back.
unfoldable pub IsConverted : (List ℕ → List ℕ) → (List ℕ → List ℕ) → List ℕ → Type 0
IsConverted to_utf8 to_wide t = to_wide (to_utf8 t) ≡ t

unfoldable pub IsKept : (List ℕ → List ℕ) → (List ℕ → List ℕ) → Rule → Type 0
IsKept to_utf8 to_wide r =
    IsConverted to_utf8 to_wide r.pattern × IsConverted to_utf8 to_wide r.description

-- A rule as it is read again: the dates are not in the document.
abbrev pub undated : Rule → Rule
undated r = record r { created = 0; modified = 0 }

-- The configuration as it is read again: the authentication mode is not in the document.
abbrev pub reread : Config → Config → Config
reread saved old = record saved { auth = record saved.auth { auth_mode = old.auth.auth_mode } }

module _ (Js : JsonApi) (L : IsLawful Js) (to_utf8 to_wide : List ℕ → List ℕ) where
  load-save_app :
      (a : AppSettings) (c : Config)
      → IsConverted to_utf8 to_wide a.exe_path
      → load_app Js to_wide (save_app Js to_utf8 a) c ≡ (record c { app = a }, true)
  unfolding load_app save_app assign required IsConverted
  load-save_app a c same = simp (L.is_object-put, L.field-put, L.get_text-text, same) refl

  load-save_proxy :
      (p : ProxySettings) (c : Config)
      → p.port < u16_mod
      → load_proxy Js to_wide (save_proxy Js to_utf8 p) c ≡ (record c { proxy = p }, true)
  unfolding load_proxy save_proxy then_also assign value
  load-save_proxy p c fits =
      let same : p.port % u16_mod ≡ p.port = omega arith in
      simp
        (L.is_object-put, L.field-put, L.get_text-text, L.get_number-number, L.get_flag-flag, same)
        refl

  load-save_auth :
      (a : AuthSettings) (c : Config)
      → load_auth Js to_wide (save_auth Js to_utf8 a) c
        ≡ (record c { auth = record a { auth_mode = c.auth.auth_mode } }, true)
  unfolding load_auth save_auth then_also assign value
  load-save_auth a c = simp (L.is_object-put, L.field-put, L.get_text-text, L.get_flag-flag) refl

  load-save_log :
      (l : LogSettings) (c : Config)
      → load_log Js to_wide (save_log Js to_utf8 l) c ≡ (record c { log = l }, true)
  unfolding load_log save_log then_also assign value
  load-save_log l c = simp (L.is_object-put, L.field-put, L.get_number-number, L.get_flag-flag) refl

  load-save_stats :
      (s : StatsSettings) (c : Config)
      → load_stats Js to_wide (save_stats Js to_utf8 s) c ≡ (record c { stats = s }, true)
  unfolding load_stats save_stats assign value
  load-save_stats s c = simp (L.is_object-put, L.field-put, L.get_number-number) refl

  load-save_log_rotation :
      (l : LogRotationSettings) (c : Config)
      → load_log_rotation Js to_wide (save_log_rotation Js to_utf8 l) c
        ≡ (record c { log_rotation = l }, true)
  unfolding load_log_rotation save_log_rotation then_also assign value
  load-save_log_rotation l c =
      simp (L.is_object-put, L.field-put, L.get_text-text, L.get_number-number, L.get_flag-flag)
        refl

  rule-to_json :
      (r : Rule)
      → IsConverted to_utf8 to_wide r.pattern
      → IsConverted to_utf8 to_wide r.description
      → json_to_rule Js to_wide (rule_to_json Js to_utf8 r) ≡ some (undated r)
  unfolding json_to_rule rule_to_json value required IsConverted
  rule-to_json r p d =
      simp
        (
          L.is_object-put,
          L.field-put,
          L.get_text-text,
          L.get_number-number,
          L.get_flag-flag,
          type_of-type_text r.type,
          action_of-action_text r.action,
          p,
          d,
        )
        refl

  rules_from-map :
      (rs : List Rule)
      → All (IsKept to_utf8 to_wide) rs
      → rules_from Js to_wide (map (rule_to_json Js to_utf8) rs) ≡ some (map undated rs)
  unfolding rules_from IsKept
  rules_from-map [] h = refl
  rules_from-map (r ∷ rs) h = rw (rule-to_json r h.0.0 h.0.1) (rw (rules_from-map rs h.1) refl)

  is_object-document : (m : ConfigManager) → Js.is_object (document Js to_utf8 m) ≡ true
  unfolding document
  is_object-document m = L.is_object-put _ _ _

  -- The sections of the document.
  record Sections (m : ConfigManager) (j : Js.Json) : Type 0 where
    object : Js.is_object j ≡ true
    app : Js.field j app_key ≡ some (save_app Js to_utf8 m.config.app)
    proxy : Js.field j proxy_key ≡ some (save_proxy Js to_utf8 m.config.proxy)
    auth : Js.field j auth_key ≡ some (save_auth Js to_utf8 m.config.auth)
    log : Js.field j log_key ≡ some (save_log Js to_utf8 m.config.log)
    stats : Js.field j stats_key ≡ some (save_stats Js to_utf8 m.config.stats)
    log_rotation :
        Js.field j log_rotation_key ≡ some (save_log_rotation Js to_utf8 m.config.log_rotation)
    rules : Js.field j rules_key ≡ some (rules_to_json Js to_utf8 m.rules)

  document-Sections : (m : ConfigManager) → Sections m (document Js to_utf8 m)
  unfolding document
  document-Sections m = record {
    object = L.is_object-put _ _ _;
    app = simp L.field-put refl;
    proxy = simp L.field-put refl;
    auth = simp L.field-put refl;
    log = simp L.field-put refl;
    stats = simp L.field-put refl;
    log_rotation = simp L.field-put refl;
    rules = simp L.field-put refl;
  }

  section-found :
      (j : Js.Json) (k : Key) (load : Js.Json → Assign) (s : Js.Json) (c d : Config)
      → Js.is_object j ≡ true
      → Js.field j k ≡ some s
      → load s c ≡ (d, true)
      → section Js to_wide j k load c ≡ (d, true)
  unfolding section
  section-found j k load s c d object found loaded = simp (object, found, section) loaded

  then_also-done : (f g : Assign) (c d : Config) → f c ≡ (d, true) → then_also f g c ≡ g d
  unfolding then_also
  then_also-done f g c d h = rw h refl

  load_config-Sections :
      (m : ConfigManager) (old : Config) (j : Js.Json)
      → Sections m j
      → IsConverted to_utf8 to_wide m.config.app.exe_path
      → m.config.proxy.port < u16_mod
      → load_config Js to_wide j old ≡ (reread m.config old, true)
  unfolding load_config
  load_config-Sections m old j s exe fits =
      let c1 : Config = record old { app = m.config.app } in
      let c2 : Config = record c1 { proxy = m.config.proxy } in
      let c3 : Config = record c2 {
        auth = record m.config.auth { auth_mode = old.auth.auth_mode };
      } in
      let c4 : Config = record c3 { log = m.config.log } in
      let c5 : Config = record c4 { stats = m.config.stats } in
      let c6 : Config = record c5 { log_rotation = m.config.log_rotation } in
      let app =
        section-found j app_key (load_app Js to_wide) (save_app Js to_utf8 m.config.app) old c1
          s.object s.app (load-save_app m.config.app old exe) in
      let proxy =
        section-found j proxy_key (load_proxy Js to_wide) (save_proxy Js to_utf8 m.config.proxy) c1
          c2 s.object s.proxy (load-save_proxy m.config.proxy c1 fits) in
      let auth =
        section-found j auth_key (load_auth Js to_wide) (save_auth Js to_utf8 m.config.auth) c2 c3
          s.object s.auth (load-save_auth m.config.auth c2) in
      let log =
        section-found j log_key (load_log Js to_wide) (save_log Js to_utf8 m.config.log) c3 c4
          s.object s.log (load-save_log m.config.log c3) in
      let stats =
        section-found j stats_key (load_stats Js to_wide) (save_stats Js to_utf8 m.config.stats) c4
          c5 s.object s.stats (load-save_stats m.config.stats c4) in
      let rotation =
        section-found j log_rotation_key (load_log_rotation Js to_wide)
          (save_log_rotation Js to_utf8 m.config.log_rotation) c5 c6 s.object s.log_rotation
          (load-save_log_rotation m.config.log_rotation c5) in
      then_also-done _ _ old c1 app
      ∙ then_also-done _ _ c1 c2 proxy
      ∙ then_also-done _ _ c2 c3 auth
      ∙ then_also-done _ _ c3 c4 log
      ∙ then_also-done _ _ c4 c5 stats
      ∙ rotation

  load_rules-Sections :
      (m : ConfigManager) (old : List Rule) (j : Js.Json)
      → Sections m j
      → All (IsKept to_utf8 to_wide) m.rules
      → load_rules Js to_wide j old ≡ some (map undated m.rules)
  unfolding load_rules rules_to_json
  load_rules-Sections m old j s kept =
      simp (s.object, s.rules, L.elements-array) (rules_from-map m.rules kept)

  load_document-ok :
      (j : Js.Json) (old : ConfigManager) (c : Config) (rs : List Rule)
      → load_config Js to_wide j old.config ≡ (c, true)
      → load_rules Js to_wide j old.rules ≡ some rs
      → load_document Js to_wide j old ≡ (record { config = c; rules = rs }, true)
  unfolding load_document
  load_document-ok j old c rs a b = simp (a, b, load_document) refl

  pub load_document-document :
      (m old : ConfigManager)
      → IsConverted to_utf8 to_wide m.config.app.exe_path
      → m.config.proxy.port < u16_mod
      → All (IsKept to_utf8 to_wide) m.rules
      → load_document Js to_wide (document Js to_utf8 m) old
        ≡ (record { config = reread m.config old.config; rules = map undated m.rules }, true)
  load_document-document m old exe fits kept =
      let s = document-Sections m in
      let j = document Js to_utf8 m in
      load_document-ok j old (reread m.config old.config) (map undated m.rules)
        (load_config-Sections m old.config j s exe fits) (load_rules-Sections m old.rules j s kept)
