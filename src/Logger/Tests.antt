-- ===== src/Logger/Tests.antt =====
-- Logger.cpp on small inputs.
use tcp_redirector.Prelude.{
  ℕ, ◌^◌, ◌<◌, ◌≡◌, true, false, List, [], ◌∷◌, ◌++◌, ◌-◌, drop, none, some, refl, arith, inl,
  length,
}
use tcp_redirector.Config.Entities.{info, warn, debug}
use tcp_redirector.Relay.Replies.{to_string, digits}
use tcp_redirector.Logger.Entities.{LogEntry, LogFile, Logger, Disk, Windows}
use tcp_redirector.Logger.Moves.{Works}
use tcp_redirector.Logger.Kept.{
  Keeps, append_lines, entries, joined, lines, write_lines, write_lines-journal,
}
use tcp_redirector.Logger.Stuck.{Sticks, write_lines-erases}
use tcp_redirector.Logger.Ring.{get_recent_entries}
use tcp_redirector.Logger.Writer.{
  writing, waiting, Writer, Turn, logs, takes, writes, step, run, take_batch, write_next,
}
use tcp_redirector.Logger.Delivery.{all_written, all_accepted, pending, run-delivers}
use tcp_redirector.Logger.Shutdown.{run-abandons}
use tcp_redirector.Logger.{format_log_message, log_at}

abbrev plain : Windows
plain = record { date = λ n. b'd' ∷ []; stored = λ t. t; has_console = true }

abbrev entry : ℕ → LogEntry
entry n = record {
  timestamp = n;
  level = info;
  logger = b'a' ∷ [];
  message = b'm' ∷ [];
  file = [];
  line = 0;
  function = [];
}

-- "[d.007] [INFO ] [a           ] m".
formatted :
    format_log_message plain (entry 7)
    ≡ b'[' ∷ b'd' ∷ b'.' ∷ b'0' ∷ b'0' ∷ b'7' ∷ b']' ∷ b' ' ∷ b'[' ∷ b'I' ∷ b'N' ∷ b'F' ∷ b'O'
      ∷ b' ' ∷ b']' ∷ b' ' ∷ b'[' ∷ b'a' ∷ b' ' ∷ b' ' ∷ b' ' ∷ b' ' ∷ b' ' ∷ b' ' ∷ b' ' ∷ b' '
      ∷ b' ' ∷ b' ' ∷ b' ' ∷ b']' ∷ b' ' ∷ b'm' ∷ []
unfolding format_log_message to_string digits
formatted = refl

abbrev good : Disk
good = record { removes = true; renames = λ k. true; renames_log = true; opens = true }

abbrev held : Disk
held = record { removes = true; renames = λ k. true; renames_log = false; opens = true }

abbrev log_file : LogFile
log_file = record {
  is_open = true;
  current = some (b'x' ∷ []);
  backups = λ k. none;
  max_file_size = 1;
  max_files = 2;
}

good-Works : Works good
good-Works = record {
  moves = record { removes = refl; renames = λ k. refl };
  renames_log = refl;
  opens = refl;
}

held-Sticks : Sticks held
held-Sticks = record {
  moves = record { removes = refl; renames = λ k. refl };
  renames_log = refl;
  opens = refl;
}

abbrev successes : List (Disk × LogEntry)
successes = (good, entry 1) ∷ (good, entry 2) ∷ []

write_lines-journal_example :
    let g =
      append_lines plain 1 (entries successes) (record { closed = []; current = b'x' ∷ [] }) in
    (joined g.closed g.current ≡ (b'x' ∷ []) ++ lines plain (entries successes))
    × Keeps 1 log_file.backups g (write_lines plain successes log_file)
write_lines-journal_example =
    write_lines-journal plain successes (b'x' ∷ []) log_file (good-Works, (good-Works, tt))
      (omega arith) (omega arith) refl refl

abbrev attempts : List (Disk × LogEntry)
attempts = (held, entry 1) ∷ (held, entry 2) ∷ []

attempts_short : length ((b'x' ∷ []) ++ lines plain (entries attempts)) < 2 ^ 31
unfolding format_log_message to_string digits
attempts_short = omega arith

write_lines-erases_example :
    ((write_lines plain attempts log_file).current
      ≡ some ((b'x' ∷ []) ++ lines plain (entries attempts)))
    × ((write_lines plain attempts log_file).backups 1 ≡ none)
write_lines-erases_example =
    write_lines-erases plain attempts (b'x' ∷ []) log_file 1 (held-Sticks, (held-Sticks, tt))
      (omega arith) (omega arith) refl refl refl (omega arith) (omega arith) attempts_short
      (omega arith) (omega arith)

abbrev empty_log : Logger
empty_log = record {
  current_level = info;
  queue = [];
  file = log_file;
  ring = λ i. entry 0;
  ring_index = 0;
  has_callback = false;
  listeners = [];
  next_listener_id = 1;
  printed = [];
  called = [];
  told = [];
}

abbrev started : Writer
started = record { logger = empty_log; running = true; phase = waiting }

abbrev calls : List Turn
calls =
    logs 1 info (b'a' ∷ []) (b'm' ∷ []) [] 0 []
    ∷ logs 2 debug (b'a' ∷ []) (b'm' ∷ []) [] 0 []
    ∷ takes
    ∷ logs 3 warn (b'a' ∷ []) (b'm' ∷ []) [] 0 []
    ∷ writes good
    ∷ []

calls_written : all_written plain calls started ≡ entry 1 ∷ []
unfolding step take_batch write_next log_at
calls_written = refl

calls_short : length (all_written plain calls started) < 2 ^ 64
calls_short = rw calls_written (omega arith)

run-delivers_example :
    (all_written plain calls started ++ pending (run plain calls started)
      ≡ pending started ++ all_accepted plain calls started)
    × (get_recent_entries 1 (run plain calls started).logger
        ≡ drop (length (all_written plain calls started) - 1) (all_written plain calls started))
run-delivers_example = run-delivers plain calls started 1 refl calls_short

-- The thread has one entry left, and one waits in the queue.
abbrev closing : Writer
closing = record {
  logger = record empty_log { queue = entry 2 ∷ [] };
  running = false;
  phase = writing (entry 1 ∷ []);
}

run-abandons_example :
    (rest : List LogEntry) × (all_written plain
          (writes good ∷ writes good ∷ takes ∷ writes good ∷ [])
          closing
        ++ rest
      ≡ entry 1 ∷ [])
run-abandons_example =
    run-abandons plain (writes good ∷ writes good ∷ takes ∷ writes good ∷ []) closing (entry 1 ∷ [])
      (refl, inl refl)
