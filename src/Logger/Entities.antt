-- ===== src/Logger/Entities.antt =====
-- infrastructure/logging/Logger.h: the state of the logger, the entries of domain/entities/ProxyConfig.h, and what
-- the machine answers.
use tcp_redirector.Prelude.{ℕ, Bool, List, Option}
use tcp_redirector.Config.Entities.{LogLevel, trace, debug, info, warn, error, off}

-- The number of a level.
abbrev pub rank : LogLevel → ℕ
rank trace = 0
rank debug = 1
rank info = 2
rank warn = 3
rank error = 4
rank off = 5

-- `timestamp` is in milliseconds.
pub record LogEntry : Type 0 where
  pub timestamp : ℕ
  pub level : LogLevel
  pub logger : List ℕ
  pub message : List ℕ
  pub file : List ℕ
  pub line : ℕ
  pub function : List ℕ

-- The log file and those beside it: `current` is tcp_redirector.log and `backups k` is tcp_redirector.k.log,
-- `none` for one that is not there. `is_open`: the logger has the log file open.
pub record LogFile : Type 0 where
  pub is_open : Bool
  pub current : Option (List ℕ)
  pub backups : ℕ → Option (List ℕ)
  pub max_file_size : ℕ
  pub max_files : ℕ

-- `ring` is read below 2000 only. The listeners are the keys of the map. `printed`, `called` and `told` are what
-- the console, the callback and the listeners have been given so far.
pub record Logger : Type 0 where
  pub current_level : LogLevel
  pub queue : List LogEntry
  pub file : LogFile
  pub ring : ℕ → LogEntry
  pub ring_index : ℕ
  pub has_callback : Bool
  pub listeners : List ℕ
  pub next_listener_id : ℕ
  pub printed : List (ℕ × List ℕ)
  pub called : List LogEntry
  pub told : List (ℕ × LogEntry)

-- What the file system does in one rotation: whether the last backup is removed, whether the k-th backup and the
-- log file are renamed, which replaces the file that has the new name, and whether the log file is opened.
pub record Disk : Type 0 where
  pub removes : Bool
  pub renames : ℕ → Bool
  pub renames_log : Bool
  pub opens : Bool

-- `strftime` of a time in seconds; what a file in text mode gets for a text; whether there is a console.
pub record Windows : Type 0 where
  pub date : ℕ → List ℕ
  pub stored : List ℕ → List ℕ
  pub has_console : Bool
