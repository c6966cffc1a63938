-- ===== src/Logger.antt =====
-- infrastructure/logging/Logger.cpp. Each lock makes what it guards one step. The thread that writes is
-- Logger.Writer, the rotation of the file by its size Logger.Files.
pub mod Entities
pub mod Files
pub mod Ring
pub mod Recent
pub mod Moves
pub mod Kept
pub mod Stuck
pub mod Writer
pub mod Delivery
pub mod Shutdown
mod Tests
use tcp_redirector.Prelude.{
  ℕ, ◌-◌, ◌/◌, ◌%◌, Bool, not, List, [], ◌∷◌, ◌++◌, map, keep, take, ltb, length, replicate, ◌==◌,
  add64, if◌then◌else◌,
}
use tcp_redirector.Config.Entities.{LogLevel, trace, debug, info, warn, error, off}
use tcp_redirector.Logger.Entities.{rank, LogEntry, Logger, Windows}
use tcp_redirector.Relay.Replies.{to_string}

-- The text up to its first zero byte.
unfoldable pub c_text : List ℕ → List ℕ
c_text [] = []
c_text (c ∷ cs) = let rest = c_text cs in if c == 0 then [] else c ∷ rest

-- "%-12s" and "%03d".
unfoldable pub pad_right : List ℕ → List ℕ
pad_right t = t ++ replicate (12 - length t) b' '

unfoldable pub pad_left : ℕ → List ℕ
pad_left n = replicate (3 - length (to_string n)) b'0' ++ to_string n

unfoldable pub level_text : LogLevel → List ℕ
level_text trace = b'T' ∷ b'R' ∷ b'A' ∷ b'C' ∷ b'E' ∷ []
level_text debug = b'D' ∷ b'E' ∷ b'B' ∷ b'U' ∷ b'G' ∷ []
level_text info = b'I' ∷ b'N' ∷ b'F' ∷ b'O' ∷ b' ' ∷ []
level_text warn = b'W' ∷ b'A' ∷ b'R' ∷ b'N' ∷ b' ' ∷ []
level_text error = b'E' ∷ b'R' ∷ b'R' ∷ b'O' ∷ b'R' ∷ []
level_text off = replicate 5 b'?'

unfoldable pub location : LogEntry → List ℕ
unfolding c_text
location e = elim e.file [
  | [] ↦ []
  | c ∷ cs ↦ b' ' ∷ b' ' ∷ b'(' ∷ (c_text (c ∷ cs) ++ (b':' ∷ (to_string e.line ++ (b')' ∷ []))))
]

-- The buffer has 4096 bytes, the last one zero.
unfoldable pub format_log_message : Windows → LogEntry → List ℕ
unfolding c_text pad_right pad_left level_text location
format_log_message w e = take 4095 (
    (b'[' ∷ w.date (e.timestamp / 1000))
    ++ ((b'.' ∷ pad_left (e.timestamp % 1000))
        ++ ((b']' ∷ b' ' ∷ b'[' ∷ level_text e.level)
            ++ ((b']' ∷ b' ' ∷ b'[' ∷ pad_right (c_text e.logger))
                ++ ((b']' ∷ b' ' ∷ c_text e.message) ++ location e)))))

unfoldable pub color : LogLevel → ℕ
color error = 12
color warn = 14
color info = 15
color debug = 8
color trace = 7
color off = 7

unfoldable pub write_color_console : Windows → LogEntry → Logger → Logger
write_color_console w e l =
    if w.has_console
    then record l { printed = l.printed ++ (color e.level, format_log_message w e) ∷ [] }
    else l

-- `now` is the time of the call.
unfoldable pub log_at : ℕ → LogLevel → List ℕ → List ℕ → List ℕ → ℕ → List ℕ → Logger → Logger
log_at now level logger message file line function l =
    if ltb (rank level) (rank l.current_level) then l else record l {
      queue =
          l.queue
          ++ (record {
            timestamp = now;
            level = level;
            logger = logger;
            message = message;
            file = file;
            line = line;
            function = function;
          })
            ∷ [];
    }

unfoldable pub log : ℕ → LogLevel → List ℕ → List ℕ → Logger → Logger
unfolding log_at
log now level logger message l = log_at now level logger message [] 0 [] l

unfoldable pub set_level : LogLevel → Logger → Logger
set_level level l = record l { current_level = level }

unfoldable pub set_on_log_entry : Bool → Logger → Logger
set_on_log_entry set l = record l { has_callback = set }

unfoldable pub register_listener : Logger → Logger × ℕ
register_listener l = (
  record l {
    listeners = l.next_listener_id ∷ l.listeners;
    next_listener_id = add64 l.next_listener_id 1;
  },
  l.next_listener_id,
)

unfoldable pub unregister_listener : ℕ → Logger → Logger
unregister_listener id l = record l { listeners = keep (λ i. not (i == id)) l.listeners }

unfoldable pub notify_listeners : LogEntry → Logger → Logger
notify_listeners e l = record l { told = l.told ++ map (λ i. (i, e)) l.listeners }

-- "call the callback, if there is one".
unfoldable pub call_back : LogEntry → Logger → Logger
call_back e l = if l.has_callback then record l { called = l.called ++ e ∷ [] } else l
