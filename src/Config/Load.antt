-- ===== src/Config/Load.antt =====
-- LoadImpl and JsonToRules of infrastructure/config/ConfigManager.cpp: what a document sets. An access that throws
-- leaves the assignments before it.
use tcp_redirector.Prelude.{
  ℕ, ◌%◌, Bool, true, false, List, [], ◌∷◌, Option, none, some, text_eq, if◌then◌else◌, u16_mod,
}
use tcp_redirector.RuleEngine.{
  RuleType, process_name, process_path, global, RuleAction, proxy, direct, block, Rule,
}
use tcp_redirector.Config.Entities.{ConfigManager, Config}
use tcp_redirector.Config.Json.{
  JsonApi, Key, app_key, exe_path_key, proxy_key, host_key, port_key, enabled_key, auth_key,
  username_key, encrypted_password_key, kerberos_key, log_key, level_key, file_enabled_key,
  max_size_mb_key, log_rotation_key, schedule_key, hour_key, minute_key, max_age_days_key,
  archive_dir_key, compress_key, stats_key, update_interval_ms_key, rules_key, id_key, pattern_key,
  description_key, priority_key, type_key, action_key,
}
use tcp_redirector.Config.Document.{
  process_name_text, process_path_text, global_text, proxy_text, direct_text, block_text,
}

-- "127.0.0.1" and "daily".
abbrev pub localhost : List ℕ
localhost = b'1' ∷ b'2' ∷ b'7' ∷ b'.' ∷ b'0' ∷ b'.' ∷ b'0' ∷ b'.' ∷ b'1' ∷ []

abbrev pub daily : List ℕ
daily = b'd' ∷ b'a' ∷ b'i' ∷ b'l' ∷ b'y' ∷ []

abbrev pub bind {ℓ κ} : {A : Type ℓ} {B : Type κ} → Option A → (A → Option B) → Option B
bind none f = none
bind (some a) f = f a

-- Assignments to the configuration, and whether none of them threw.
abbrev pub Assign : Type 0
Assign = Config → Config × Bool

unfoldable pub assign {ℓ} : {A : Type ℓ} → Option A → (A → Config → Config) → Assign
assign none f c = (c, false)
assign (some a) f c = (f a c, true)

unfoldable pub then_also : Assign → Assign → Assign
then_also f g c = let r = f c in if r.1 then g r.0 else r

unfoldable pub type_of : List ℕ → RuleType
type_of t =
    if text_eq t process_path_text
    then process_path
    else if text_eq t global_text
    then global
    else process_name

unfoldable pub action_of : List ℕ → RuleAction
action_of t =
    if text_eq t direct_text then direct else if text_eq t block_text then block else proxy

-- `to_wide` is Utf8ToWide.
module _ (Js : JsonApi) (to_wide : List ℕ → List ℕ) where
  -- `j.value(key, default)`.
  unfoldable pub value {ℓ} : {A : Type ℓ} → (Js.Json → Option A) → Js.Json → Key → A → Option A
  value get j k default =
      if Js.is_object j then elim (Js.field j k) [ none ↦ some default | some v ↦ get v ] else none

  -- `j[key].get<std::string>()`. A pattern that is missing in a rule, which the library leaves undefined, is taken
  -- as a throw.
  unfoldable pub required : Js.Json → Key → Option (List ℕ)
  required j k =
      if Js.is_object j then elim (Js.field j k) [ none ↦ none | some v ↦ Js.get_text v ] else none

  unfoldable pub json_to_rule : Js.Json → Option Rule
  json_to_rule j = bind (value Js.get_text j id_key []) (λ id.
      bind (required j pattern_key) (λ pattern.
        bind (value Js.get_text j description_key []) (λ description.
          bind (value Js.get_number j priority_key 0) (λ priority.
            bind (value Js.get_flag j enabled_key true) (λ enabled.
              bind (value Js.get_text j type_key process_name_text) (λ type.
                bind (value Js.get_text j action_key proxy_text) (λ action. some (record {
                  id = id;
                  type = type_of type;
                  action = action_of action;
                  pattern = to_wide pattern;
                  description = to_wide description;
                  priority = priority;
                  enabled = enabled;
                  created = 0;
                  modified = 0;
                }))))))))

  unfoldable pub rules_from : List Js.Json → Option (List Rule)
  rules_from [] = some []
  rules_from (j ∷ js) = bind (json_to_rule j) (λ r. bind (rules_from js) (λ rs. some (r ∷ rs)))

  unfoldable pub load_app : Js.Json → Assign
  load_app j =
      assign (required j exe_path_key)
        (λ t c. record c { app = record c.app { exe_path = to_wide t } })

  unfoldable pub load_proxy : Js.Json → Assign
  load_proxy j =
      then_also
        (assign (value Js.get_text j host_key localhost)
          (λ t c. record c { proxy = record c.proxy { host = t } }))
        (then_also
          (assign (value Js.get_number j port_key 3128)
            (λ n c. record c { proxy = record c.proxy { port = n % u16_mod } }))
          (assign (value Js.get_flag j enabled_key true)
            (λ b c. record c { proxy = record c.proxy { enabled = b } })))

  unfoldable pub load_auth : Js.Json → Assign
  load_auth j =
      then_also
        (assign (value Js.get_flag j enabled_key false)
          (λ b c. record c { auth = record c.auth { enabled = b } }))
        (then_also
          (assign (value Js.get_text j username_key [])
            (λ t c. record c { auth = record c.auth { username = t } }))
          (then_also
            (assign (value Js.get_text j encrypted_password_key [])
              (λ t c. record c { auth = record c.auth { encrypted_password = t } }))
            (assign (value Js.get_flag j kerberos_key false)
              (λ b c. record c { auth = record c.auth { kerberos = b } }))))

  unfoldable pub load_log : Js.Json → Assign
  load_log j =
      then_also
        (assign (value Js.get_number j level_key 2)
          (λ n c. record c { log = record c.log { level = n } }))
        (then_also
          (assign (value Js.get_flag j file_enabled_key true)
            (λ b c. record c { log = record c.log { file_enabled = b } }))
          (assign (value Js.get_number j max_size_mb_key 10)
            (λ n c. record c { log = record c.log { max_size_mb = n } })))

  unfoldable pub load_stats : Js.Json → Assign
  load_stats j =
      assign (value Js.get_number j update_interval_ms_key 2000)
        (λ n c. record c { stats = record c.stats { update_interval_ms = n } })

  unfoldable pub load_log_rotation : Js.Json → Assign
  load_log_rotation j =
      then_also
        (assign (value Js.get_flag j enabled_key true)
          (λ b c. record c { log_rotation = record c.log_rotation { enabled = b } }))
        (then_also
          (assign (value Js.get_text j schedule_key daily)
            (λ t c. record c { log_rotation = record c.log_rotation { schedule = t } }))
          (then_also
            (assign (value Js.get_number j hour_key 3)
              (λ n c. record c { log_rotation = record c.log_rotation { hour = n } }))
            (then_also
              (assign (value Js.get_number j minute_key 0)
                (λ n c. record c { log_rotation = record c.log_rotation { minute = n } }))
              (then_also
                (assign (value Js.get_number j max_age_days_key 30)
                  (λ n c. record c { log_rotation = record c.log_rotation { max_age_days = n } }))
                (then_also
                  (assign (value Js.get_text j archive_dir_key [])
                    (λ t c. record c { log_rotation = record c.log_rotation { archive_dir = t } }))
                  (assign (value Js.get_flag j compress_key true) (λ b c. record c {
                    log_rotation = record c.log_rotation { compress = b };
                  })))))))

  -- `j.contains(key)`, and what the section sets.
  unfoldable pub section : Js.Json → Key → (Js.Json → Assign) → Assign
  section j k load c =
      if Js.is_object j
      then elim (Js.field j k) [ none ↦ (c, true) | some s ↦ load s c ]
      else (c, true)

  unfoldable pub load_config : Js.Json → Assign
  load_config j = then_also (section j app_key load_app) (
      then_also (section j proxy_key load_proxy) (
        then_also (section j auth_key load_auth) (
          then_also (section j log_key load_log) (
            then_also (section j stats_key load_stats)
              (section j log_rotation_key load_log_rotation)))))

  -- The rules, or those there were if the document has none; `none` if an access throws.
  unfoldable pub load_rules : Js.Json → List Rule → Option (List Rule)
  load_rules j old =
      if Js.is_object j
      then elim (Js.field j rules_key) [ none ↦ some old | some v ↦ rules_from (Js.elements v) ]
      else some old

  -- What LoadImpl does with a document.
  unfoldable pub load_document : Js.Json → ConfigManager → ConfigManager × Bool
  load_document j m =
      let r = load_config j m.config in
      if r.1
      then elim (load_rules j m.rules) [
        | none ↦ (record m { config = r.0 }, false)
        | some rules ↦ (record { config = r.0; rules = rules }, true)
      ]
      else (record m { config = r.0 }, false)
