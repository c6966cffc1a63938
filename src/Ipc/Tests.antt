-- ===== src/Ipc/Tests.antt =====
-- IpcHandler.h on small requests, with the JSON library of Config.Coded and conversions that change nothing.
use tcp_redirector.Prelude.{
  ℕ, ◌≡◌, true, false, List, [], ◌∷◌, none, some, refl, ◌==◌, if◌then◌else◌,
}
use mathlib.Core.List.{Perm}
use tcp_redirector.RuleEngine.{Rule, RuleType, RuleAction, match_rules, set_rules}
use tcp_redirector.RuleEngine.Decision.{Decides}
use tcp_redirector.RuleEngine.Sorting.{insertion_sorter}
use tcp_redirector.Ipc.Requests.{
  Casts, Service, set_rules_request, set_config_request, parse_rules, request_rule, request_rules,
}
use tcp_redirector.Ipc.Synced.{handle_all, handle_all-Decides}
use tcp_redirector.Config.Entities.{LogLevel, Store, Windows, FileApi}
use tcp_redirector.Config.Json.{
  host_key, port_key, kerberos_key, rules_key, pattern_key, priority_key, type_key,
}
use tcp_redirector.Config.Coded.{
  coded_json, starts, seek, text_in, number_in, flag_in, items, items_in, gather_items,
}
use tcp_redirector.Config.Load.{required, value}
use tcp_redirector.Config.{initial_config, save_impl, set_proxy_config}
use tcp_redirector.Ipc.{
  success, not_persisted, threw, set_config, parse_proxy, set_proxy, required_port, new_password,
}
use tcp_redirector.Ipc.Replies.{Answers, set_config-Answers}

abbrev ascii : Windows
ascii = record {
  to_utf8 = λ t. t;
  to_wide = λ t. t;
  protect = λ t. some (7 ∷ t);
  unprotect = λ t. elim t [ [] ↦ none | x ∷ xs ↦ some xs ];
}

abbrev working : FileApi
working = record {
  creates = true;
  opens = true;
  writes = true;
  renames = true;
  reads = true;
  flush = λ t. t;
}

abbrev filled : FileApi
filled = record {
  creates = true;
  opens = true;
  writes = false;
  renames = true;
  reads = true;
  flush = λ t. t;
}

-- {"host": "q", "kerberos": true, "port": 3129}.
abbrev request : List ℕ
unfolding coded_json
request =
    coded_json.put
      (coded_json.put (coded_json.put coded_json.null host_key (coded_json.text (b'q' ∷ [])))
        kerberos_key (coded_json.flag true))
      port_key (coded_json.number 3129)

abbrev fresh : Store
fresh = record {
  manager = record { config = initial_config; rules = [] };
  file = none;
  listeners = 1 ∷ [];
  next_listener_id = 2;
  notices = [];
}

accepted : (set_config coded_json ascii working working request fresh).1 ≡ success
unfolding coded_json starts seek text_in number_in flag_in required value required_port new_password
    set_config set_proxy parse_proxy set_proxy_config save_impl
accepted = refl

half_saved : (set_config coded_json ascii working filled request fresh).1 ≡ not_persisted
unfolding coded_json starts seek text_in number_in flag_in required value required_port new_password
    set_config set_proxy parse_proxy set_proxy_config save_impl
half_saved = refl

empty_request : (set_config coded_json ascii working working [] fresh).1 ≡ threw
unfolding coded_json starts seek text_in number_in flag_in required value required_port new_password
    set_config set_proxy parse_proxy set_proxy_config save_impl
empty_request = refl

set_config-Answers_example :
    Answers coded_json ascii request fresh
      (set_config coded_json ascii working filled request fresh).0
      (set_config coded_json ascii working filled request fresh).1
set_config-Answers_example =
    set_config-Answers coded_json ascii working filled request fresh (λ t. refl) (λ t. refl)

-- {"rules": [{"pattern": "p", "priority": 5, "type": 1}]}.
abbrev new_rules : List ℕ
unfolding coded_json
new_rules = coded_json.put coded_json.null rules_key (
    coded_json.array (
      coded_json.put
        (coded_json.put (coded_json.put coded_json.null pattern_key (coded_json.text (b'p' ∷ [])))
          priority_key (coded_json.number 5))
        type_key (coded_json.number 1)
      ∷ []))

abbrev casts : Casts
casts = record {
  to_type = λ n.
      if n == 1
      then RuleType.process_path
      else if n == 2
      then RuleType.global
      else RuleType.process_name;
  to_action = λ n.
      if n == 1 then RuleAction.direct else if n == 2 then RuleAction.block else RuleAction.proxy;
  to_level = λ n. if n == 0 then LogLevel.trace else LogLevel.info;
}

abbrev new_rule : Rule
new_rule = record {
  id = [];
  type = RuleType.process_path;
  action = RuleAction.proxy;
  pattern = b'p' ∷ [];
  description = [];
  priority = 5;
  enabled = true;
  created = 0;
  modified = 0;
}

new_rules-parsed :
    parse_rules coded_json ascii casts insertion_sorter new_rules ≡ some (new_rule ∷ [])
unfolding coded_json starts seek text_in number_in flag_in items_in items gather_items required
    value request_rule request_rules parse_rules
new_rules-parsed = refl

abbrev served : Service
served = record {
  store = record fresh { file = some [] };
  engine = set_rules insertion_sorter [] [];
  logger = record {
    current_level = LogLevel.info;
    queue = [];
    file = record {
      is_open = false;
      current = none;
      backups = λ k. none;
      max_file_size = 1;
      max_files = 5;
    };
    ring = λ i. record {
      timestamp = 0;
      level = LogLevel.info;
      logger = [];
      message = [];
      file = [];
      line = 0;
      function = [];
    };
    ring_index = 0;
    has_callback = false;
    listeners = [];
    next_listener_id = 1;
    printed = [];
    called = [];
    told = [];
  };
}

handle_all-Decides_example :
    let r =
      handle_all coded_json ascii casts insertion_sorter
        ((new_rules, set_rules_request filled) ∷ (request, set_config_request working working) ∷ [])
        served in
    Perm r.engine r.store.manager.rules
    × Decides r.engine (b'p' ∷ []) [] (match_rules r.engine (b'p' ∷ []) [])
handle_all-Decides_example =
    handle_all-Decides coded_json ascii casts insertion_sorter
      ((new_rules, set_rules_request filled) ∷ (request, set_config_request working working) ∷ [])
      served (b'p' ∷ []) [] refl refl
