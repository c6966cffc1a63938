-- ===== src/Logger/Writer.antt =====
-- Logger.cpp: the thread that writes, in turns with the calls of the other threads. The locks of the queue make a
-- call of `Log` and the taking of a batch one turn each; the entries of a batch are written one a turn.
use tcp_redirector.Prelude.{ℕ, ◌*◌, ◌%◌, u64_mod, Bool, true, false, List, [], ◌∷◌, if◌then◌else◌}
use tcp_redirector.Config.Entities.{LogLevel}
use tcp_redirector.Logger.Entities.{LogEntry, Logger, Disk, Windows}
use tcp_redirector.Logger.Files.{open_log_file, write_line}
use tcp_redirector.Logger.Ring.{add_to_ring_buffer}
use tcp_redirector.Logger.{write_color_console, log_at, set_level, notify_listeners, call_back}

-- The console, the file, the callback, the listeners and the ring, in this order.
unfoldable pub write_entry : Windows → Disk → LogEntry → Logger → Logger
write_entry w d e l =
    let shown = write_color_console w e l in
    let filed = record shown { file = write_line w d e shown.file } in
    add_to_ring_buffer e (notify_listeners e (call_back e filed))

-- Where the thread stands: it waits for entries, it has what is left of a batch, or it has left its loop.
pub data Phase : Type 0 where
  waiting : Phase
  writing : List LogEntry → Phase
  ended : Phase

pub record Writer : Type 0 where
  pub logger : Logger
  pub running : Bool
  pub phase : Phase

-- `created`: the directory is there. The thread begins to wait.
unfoldable pub initialize : Bool → Disk → LogLevel → ℕ → ℕ → Writer → Writer
initialize created d level max_file_size_mb max_files s =
    let f = record s.logger.file {
      max_file_size = max_file_size_mb * 1024 * 1024 % u64_mod;
      max_files = max_files;
    } in
    record {
      logger = record s.logger {
        current_level = level;
        file = if created then open_log_file d f else f;
      };
      running = true;
      phase = waiting;
    }

-- The end of `Shutdown`, after the thread has ended.
unfoldable pub close_log_file : Writer → Writer
close_log_file s = record s {
  logger = record s.logger { file = record s.logger.file { is_open = false } };
}

-- A call of `Log`, of `SetLevel` or of `Shutdown`, or a turn of the thread: it looks at the queue, or it writes an
-- entry or, with none left, goes to the head of its loop.
pub data Turn : Type 0 where
  logs :
      (now : ℕ) (level : LogLevel) (logger message file : List ℕ) (line : ℕ) (function : List ℕ)
      → Turn
  sets : LogLevel → Turn
  stops takes : Turn
  writes : Disk → Turn

unfoldable pub take_batch : Phase → Writer → Writer
take_batch waiting s = elim s.logger.queue [
  | [] ↦ if s.running then s else record s { phase = ended }
  | e ∷ es ↦ record s { logger = record s.logger { queue = [] }; phase = writing (e ∷ es) }
]
take_batch (writing es) s = s
take_batch ended s = s

unfoldable pub write_next : Windows → Disk → Phase → Writer → Writer
write_next w d (writing (e ∷ es)) s = record s {
  logger = write_entry w d e s.logger;
  phase = writing es;
}
write_next w d (writing []) s =
    if s.running then record s { phase = waiting } else record s { phase = ended }
write_next w d waiting s = s
write_next w d ended s = s

unfoldable pub step : Windows → Turn → Writer → Writer
unfolding take_batch write_next
step w (logs now level logger message file line function) s = record s {
  logger = log_at now level logger message file line function s.logger;
}
step w (sets level) s = record s { logger = set_level level s.logger }
step w stops s = record s { running = false }
step w takes s = take_batch s.phase s
step w (writes d) s = write_next w d s.phase s

abbrev pub run : Windows → List Turn → Writer → Writer
run w [] s = s
run w (t ∷ ts) s = run w ts (step w t s)
