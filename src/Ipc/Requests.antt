-- ===== src/Ipc/Requests.antt =====
-- IpcHandler.h: the requests that change the rules, the level of the log and the configuration, and the callback of
-- adapters/driving/ServiceMain.h that reads the file again. What an answer holds besides is not part of it.
use tcp_redirector.Prelude.{
  ℕ, ◌%◌, true, List, [], ◌∷◌, Option, none, some, length, ltb, if◌then◌else◌, u32_mod,
}
use tcp_redirector.RuleEngine.{RuleType, RuleAction, Rule, Sorter, set_rules}
use tcp_redirector.Config.Entities.{LogLevel, Store, Windows, FileApi}
use tcp_redirector.Config.Json.{
  JsonApi, rules_key, id_key, pattern_key, description_key, priority_key, enabled_key, type_key,
  action_key, level_key,
}
use tcp_redirector.Config.Load.{bind, value, required}
use tcp_redirector.Config.{save_impl, load_impl, set_log_level}
use tcp_redirector.Config
use tcp_redirector.Logger.Entities.{Logger}
use tcp_redirector.Logger.{set_level}
use tcp_redirector.Ipc.{set_config}

-- What the handler refers to: the configuration, the rules of the engine, the logger.
pub record Service : Type 0 where
  pub store : Store
  pub engine : List Rule
  pub logger : Logger

-- What a `static_cast` makes of a number. The data types have no value for a number that is no enumerator, and
-- it is left open which value it becomes.
pub record Casts : Type 0 where
  pub to_type : ℕ → RuleType
  pub to_action : ℕ → RuleAction
  pub to_level : ℕ → LogLevel

-- The parameters of a request, by its method, with what the file system answers each time that it is used;
-- `reads` is a request that changes nothing here.
pub data Request : Type 0 where
  set_config_request : FileApi → FileApi → Request
  set_rules_request : FileApi → Request
  set_log_level_request : FileApi → FileApi → Request
  reload_config_request : FileApi → Request
  reads : Request

-- 1 MB.
abbrev pub max_ipc_message_size : ℕ
max_ipc_message_size = 1048576

module _ (Js : JsonApi) (w : Windows) (casts : Casts) (sorter : Sorter) where
  unfoldable pub request_rule : Js.Json → Option Rule
  request_rule r = bind (value Js w.to_wide Js.get_text r id_key []) (λ id.
      bind (required Js w.to_wide r pattern_key) (λ pattern.
        bind (value Js w.to_wide Js.get_text r description_key []) (λ description.
          bind (value Js w.to_wide Js.get_number r priority_key 0) (λ priority.
            bind (value Js w.to_wide Js.get_flag r enabled_key true) (λ enabled.
              bind (value Js w.to_wide Js.get_number r type_key 0) (λ type.
                bind (value Js w.to_wide Js.get_number r action_key 0) (λ action. some (record {
                  id = id;
                  type = casts.to_type type;
                  action = casts.to_action action;
                  pattern = w.to_wide pattern;
                  description = w.to_wide description;
                  priority = priority % u32_mod;
                  enabled = enabled;
                  created = 0;
                  modified = 0;
                }))))))))

  unfoldable pub request_rules : List Js.Json → Option (List Rule)
  request_rules [] = some []
  request_rules (r ∷ rs) =
      bind (request_rule r) (λ rule. bind (request_rules rs) (λ rules. some (rule ∷ rules)))

  -- `j["rules"]` makes an object of null, and a key that is missing is null, which has no elements. A pattern that
  -- is missing in a rule, which the library leaves undefined, is taken as a throw.
  unfoldable pub parse_rules : List ℕ → Option (List Rule)
  parse_rules params = bind (Js.parse params) (λ j.
      if Js.is_object j
      then elim (Js.field j rules_key) [ none ↦ some [] | some v ↦ request_rules (Js.elements v) ]
      else if Js.is_null j
      then some []
      else none)

  -- The result of the save is not looked at.
  unfoldable pub take_rules : FileApi → Option (List Rule) → Service → Service
  take_rules f none s = s
  take_rules f (some rules) s = record s {
    engine = set_rules sorter s.engine rules;
    store = (save_impl Js w f (Config.set_rules rules s.store).0).0;
  }

  unfoldable pub parse_level : List ℕ → Option LogLevel
  parse_level params = bind (Js.parse params) (λ j.
      if Js.is_object j
      then elim (Js.field j level_key) [
        | none ↦ none
        | some v ↦ bind (Js.get_number v) (λ n. some (casts.to_level n))
      ]
      else none)

  unfoldable pub take_level : FileApi → FileApi → Option LogLevel → Service → Service
  take_level f g none s = s
  take_level f g (some level) s = record s {
    logger = set_level level s.logger;
    store = (save_impl Js w g (set_log_level Js w f level s.store).0).0;
  }

  -- The callback: the engine gets the rules of the file if it can be loaded.
  unfoldable pub reload_config : FileApi → Service → Service
  reload_config f s =
      let r = load_impl Js w f s.store in
      if r.1
      then record s { store = r.0; engine = set_rules sorter s.engine r.0.manager.rules }
      else record s { store = r.0 }

  unfoldable pub dispatch : List ℕ → Request → Service → Service
  unfolding take_rules take_level reload_config
  dispatch params (set_config_request f g) s = record s {
    store = (set_config Js w f g params s.store).0;
  }
  dispatch params (set_rules_request f) s = take_rules f (parse_rules params) s
  dispatch params (set_log_level_request f g) s = take_level f g (parse_level params) s
  dispatch params (reload_config_request f) s = reload_config f s
  dispatch params reads s = s

  unfoldable pub handle : List ℕ → Request → Service → Service
  unfolding dispatch
  handle params r s = if ltb max_ipc_message_size (length params) then s else dispatch params r s
