-- ===== src/Config/Json.antt =====
-- The interface of nlohmann::json that ConfigManager.cpp and IpcHandler.h use, with the laws that it relies on.
use tcp_redirector.Prelude.{ℕ, ◌≡◌, Bool, true, List, Option, none, some, ◌==◌, if◌then◌else◌}

-- The keys of the file and of the requests, each the string of the same name in the source.
pub data Key : Type 0 where
  app_key exe_path_key proxy_key host_key port_key enabled_key auth_key username_key : Key
  encrypted_password_key kerberos_key log_key level_key file_enabled_key : Key
  max_size_mb_key log_rotation_key schedule_key hour_key minute_key max_age_days_key : Key
  archive_dir_key compress_key stats_key update_interval_ms_key rules_key id_key : Key
  pattern_key description_key priority_key type_key action_key auth_required_key : Key
  login_key set_password_key password_key : Key

-- The place of a key in that list; two keys are the same string if it is the same.
abbrev pub code : Key → ℕ
code app_key = 0
code exe_path_key = 1
code proxy_key = 2
code host_key = 3
code port_key = 4
code enabled_key = 5
code auth_key = 6
code username_key = 7
code encrypted_password_key = 8
code kerberos_key = 9
code log_key = 10
code level_key = 11
code file_enabled_key = 12
code max_size_mb_key = 13
code log_rotation_key = 14
code schedule_key = 15
code hour_key = 16
code minute_key = 17
code max_age_days_key = 18
code archive_dir_key = 19
code compress_key = 20
code stats_key = 21
code update_interval_ms_key = 22
code rules_key = 23
code id_key = 24
code pattern_key = 25
code description_key = 26
code priority_key = 27
code type_key = 28
code action_key = 29
code auth_required_key = 30
code login_key = 31
code set_password_key = 32
code password_key = 33

-- `put` is an assignment `j[key] = value`, which makes an object of null; `field` is what a key of an object has;
-- a reader gives `none` where `get` throws; `dump` gives `none` for a string that is not UTF-8.
pub record JsonApi : Type 1 where
  pub Json : Type 0
  pub null : Json
  pub text : List ℕ → Json
  pub number : ℕ → Json
  pub flag : Bool → Json
  pub array : List Json → Json
  pub put : Json → Key → Json → Json
  pub is_null : Json → Bool
  pub is_object : Json → Bool
  pub field : Json → Key → Option Json
  pub get_text : Json → Option (List ℕ)
  pub get_number : Json → Option ℕ
  pub get_flag : Json → Option Bool
  pub elements : Json → List Json
  pub dump : Json → Option (List ℕ)
  pub parse : List ℕ → Option Json

-- What the documentation of the library says of them.
pub record IsLawful (Js : JsonApi) : Type 0 where
  pub field-null : (k : Key) → Js.field Js.null k ≡ none
  pub field-put :
      (j : Js.Json) (k l : Key) (v : Js.Json)
      → Js.field (Js.put j k v) l ≡ (if code k == code l then some v else Js.field j l)
  pub is_object-put : (j : Js.Json) (k : Key) (v : Js.Json) → Js.is_object (Js.put j k v) ≡ true
  pub get_text-text : (t : List ℕ) → Js.get_text (Js.text t) ≡ some t
  pub get_number-number : (n : ℕ) → Js.get_number (Js.number n) ≡ some n
  pub get_flag-flag : (b : Bool) → Js.get_flag (Js.flag b) ≡ some b
  pub elements-array : (js : List Js.Json) → Js.elements (Js.array js) ≡ js
  pub parse-dump : (j : Js.Json) (t : List ℕ) → Js.dump j ≡ some t → Js.parse t ≡ some j
