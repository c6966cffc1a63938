-- ===== src/Config/Tests.antt =====
-- ConfigManager.cpp on small inputs, with the JSON library of Config.Coded and conversions that change nothing.
use tcp_redirector.Prelude.{ℕ, ◌≡◌, true, false, List, [], ◌∷◌, All, none, some, map, refl, arith}
use tcp_redirector.RuleEngine.{Rule, process_path, direct}
use tcp_redirector.Config.Entities.{ProxyConfig, Store, Windows, FileApi}
use tcp_redirector.Config.RoundTrip.{IsConverted, IsKept, undated, reread}
use tcp_redirector.Config.Stored.{load_impl-save_impl}
use tcp_redirector.Config.Settings.{IsSealed, get_proxy_config-set_proxy_config}
use tcp_redirector.Config.Coded.{coded_json, coded_json-IsLawful}
use tcp_redirector.Config.{initial_config, get_proxy_config, save_impl, load_impl, set_proxy_config}

abbrev plain_windows : Windows
plain_windows = record {
  to_utf8 = λ t. t;
  to_wide = λ t. t;
  protect = λ t. some (7 ∷ t);
  unprotect = λ t. elim t [ [] ↦ none | x ∷ xs ↦ some xs ];
}

abbrev good_disk : FileApi
good_disk = record {
  creates = true;
  opens = true;
  writes = true;
  renames = true;
  reads = true;
  flush = λ t. t;
}

abbrev full_disk : FileApi
full_disk = record {
  creates = true;
  opens = true;
  writes = false;
  renames = true;
  reads = true;
  flush = λ t. t;
}

abbrev a_rule : Rule
a_rule = record {
  id = b'r' ∷ [];
  type = process_path;
  action = direct;
  pattern = b'*' ∷ [];
  description = [];
  priority = 3;
  enabled = false;
  created = 17;
  modified = 18;
}

abbrev a_store : Store
a_store = record {
  manager = record {
    config = record initial_config {
      proxy = record { host = b'p' ∷ []; port = 8080; enabled = false };
    };
    rules = a_rule ∷ [];
  };
  file = none;
  listeners = 1 ∷ [];
  next_listener_id = 2;
  notices = [];
}

saved : (save_impl coded_json plain_windows good_disk a_store).1 ≡ true
unfolding save_impl coded_json
saved = refl

abbrev other_store : Store
other_store = record a_store {
  manager = record { config = initial_config; rules = [] };
  file = (save_impl coded_json plain_windows good_disk a_store).0.file;
}

a_rule-IsKept : All (IsKept (λ t. t) (λ t. t)) (a_rule ∷ [])
unfolding IsKept IsConverted
a_rule-IsKept = ((refl, refl), tt)

exe-IsConverted : IsConverted (λ t. t) (λ t. t) []
unfolding IsConverted
exe-IsConverted = refl

load_impl-save_impl_example : load_impl coded_json plain_windows good_disk other_store ≡ (
  record other_store {
    manager = record {
      config = reread a_store.manager.config initial_config;
      rules = map undated (a_rule ∷ []);
    };
  },
  true,
)
load_impl-save_impl_example =
    load_impl-save_impl coded_json plain_windows good_disk good_disk a_store other_store
      coded_json-IsLawful (λ t. refl) saved refl refl exe-IsConverted (omega arith) a_rule-IsKept

abbrev a_proxy : ProxyConfig
a_proxy = record {
  host = b'q' ∷ [];
  port = 3129;
  auth_required = true;
  kerberos_auth = false;
  login = b'u' ∷ [];
  encrypted_password = [];
  has_password = true;
  plain_password = b's' ∷ [];
}

text-IsConverted : (t : List ℕ) → IsConverted (λ x. x) (λ x. x) t
unfolding IsConverted
text-IsConverted t = refl

password-IsSealed : IsSealed plain_windows (b's' ∷ [])
password-IsSealed = record {
  blob = 7 ∷ b's' ∷ [];
  sealed = refl;
  bytes = (omega arith, (omega arith, tt));
  opened = refl;
  full = refl;
}

get_proxy_config-set_proxy_config_example :
    get_proxy_config plain_windows
      (set_proxy_config coded_json plain_windows good_disk a_proxy a_store).0
    ≡ record a_proxy { encrypted_password = [] }
get_proxy_config-set_proxy_config_example =
    get_proxy_config-set_proxy_config coded_json plain_windows good_disk a_proxy a_store
      (text-IsConverted (b'q' ∷ [])) (text-IsConverted (b'u' ∷ [])) refl password-IsSealed

not_saved : (set_proxy_config coded_json plain_windows full_disk a_proxy a_store).1 ≡ false
unfolding set_proxy_config save_impl coded_json
not_saved = refl
