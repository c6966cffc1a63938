-- ===== src/Config/Entities.antt =====
-- infrastructure/config/Config.h: the settings. Ints are given by their bit patterns.
use tcp_redirector.Prelude.{ℕ, ◌≡◌, Bool, List, Option}
use tcp_redirector.RuleEngine.{Rule}

pub record AppSettings : Type 0 where
  pub exe_path : List ℕ

pub record ProxySettings : Type 0 where
  pub host : List ℕ
  pub port : ℕ
  pub enabled : Bool

pub data AuthenticationMode : Type 0 where
  kerberos_only kerberos_preferred basic_only : AuthenticationMode

pub record AuthSettings : Type 0 where
  pub enabled : Bool
  pub username : List ℕ
  pub encrypted_password : List ℕ
  pub kerberos : Bool
  pub auth_mode : AuthenticationMode

pub record LogSettings : Type 0 where
  pub level : ℕ
  pub file_enabled : Bool
  pub max_size_mb : ℕ

pub record LogRotationSettings : Type 0 where
  pub enabled : Bool
  pub schedule : List ℕ
  pub hour : ℕ
  pub minute : ℕ
  pub max_age_days : ℕ
  pub archive_dir : List ℕ
  pub compress : Bool

pub record StatsSettings : Type 0 where
  pub update_interval_ms : ℕ

pub record Config : Type 0 where
  pub app : AppSettings
  pub proxy : ProxySettings
  pub auth : AuthSettings
  pub log : LogSettings
  pub log_rotation : LogRotationSettings
  pub stats : StatsSettings

-- m_config and m_rules.
pub record ConfigManager : Type 0 where
  pub config : Config
  pub rules : List Rule

-- `ProxyConfig` of domain/entities/ProxyConfig.h.
pub record ProxyConfig : Type 0 where
  pub host : List ℕ
  pub port : ℕ
  pub auth_required : Bool
  pub kerberos_auth : Bool
  pub login : List ℕ
  pub encrypted_password : List ℕ
  pub has_password : Bool
  pub plain_password : List ℕ

pub data LogLevel : Type 0 where
  trace debug info warn error off : LogLevel

-- A manager with its file (`none` if it does not exist), the listeners, and what they were told, the latest first.
pub record Store : Type 0 where
  pub manager : ConfigManager
  pub file : Option (List ℕ)
  pub listeners : List ℕ
  pub next_listener_id : ℕ
  pub notices : List (ℕ × Config × Config)

-- What Windows answers: the conversions of utf8_convert.h, and CryptProtectData and CryptUnprotectData on the
-- bytes of a wide text.
pub record Windows : Type 0 where
  pub to_utf8 : List ℕ → List ℕ
  pub to_wide : List ℕ → List ℕ
  pub protect : List ℕ → Option (List ℕ)
  pub unprotect : List ℕ → Option (List ℕ)

-- What the file system answers to a call: the directory is there, the temporary file opens, its stream is good
-- after the text was put into it, it replaces the other, and the file opens for reading. `flush`: what the
-- temporary file has of a text once the stream is closed, which is when what the stream still buffers is
-- written; nothing tells of a failure then.
pub record FileApi : Type 0 where
  pub creates : Bool
  pub opens : Bool
  pub writes : Bool
  pub renames : Bool
  pub reads : Bool
  pub flush : List ℕ → List ℕ

-- The closing of a stream loses nothing.
abbrev pub Flushes : FileApi → Type 0
Flushes f = (t : List ℕ) → f.flush t ≡ t
