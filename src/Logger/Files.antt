-- ===== src/Logger/Files.antt =====
-- Logger.cpp: the log file and its rotation by size.
use tcp_redirector.Prelude.{
  ℕ, zero, suc, ◌^◌, Bool, true, false, ◌&&◌, List, [], ◌∷◌, ◌++◌, Option, none, some, length, ltb,
  leb, ◌==◌, sub64, if◌then◌else◌,
}
use tcp_redirector.Logger.Entities.{LogEntry, LogFile, Disk, Windows}
use tcp_redirector.Logger.{format_log_message}

abbrev pub Backups : Type 0
Backups = ℕ → Option (List ℕ)

abbrev pub put : ℕ → Option (List ℕ) → Backups → Backups
put k t b = λ j. if j == k then t else b j

abbrev pub text_of : Option (List ℕ) → List ℕ
text_of none = []
text_of (some t) = t

-- A file that is opened for appending is there afterwards.
unfoldable pub open_log_file : Disk → LogFile → LogFile
open_log_file d f =
    if d.opens
    then record f { is_open = true; current = some (text_of f.current) }
    else record f { is_open = false }

-- The k-th backup gets the next number.
unfoldable pub move : Disk → ℕ → Backups → Backups
move d k b = elim (b k) [
  | none ↦ b
  | some t ↦ if d.renames k then put k none (put (suc k) (some t) b) else b
]

-- The loop from a number down to 1.
unfoldable pub shift : Disk → ℕ → Backups → Backups
shift d zero b = b
shift d (suc k) b = shift d k (move d k b)

-- The log file becomes the first backup.
unfoldable pub move_log : Disk → LogFile → LogFile
move_log d f = elim f.current [
  | none ↦ f
  | some t ↦
      if d.renames_log then record f { current = none; backups = put 1 (some t) f.backups } else f
]

unfoldable pub rotate_log_file : Disk → LogFile → LogFile
unfolding move_log open_log_file
rotate_log_file d f =
    let last = sub64 f.max_files 1 in
    let kept = if d.removes then put last none f.backups else f.backups in
    open_log_file d (move_log d (record f { is_open = false; backups = shift d last kept }))

-- `ftell` gives a positive `long` only below 2 ^ 31.
abbrev pub is_full : ℕ → List ℕ → Bool
is_full max t = ltb 0 (length t) && ltb (length t) (2 ^ 31) && leb max (length t)

-- What an entry adds to the file.
abbrev pub file_line : Windows → LogEntry → List ℕ
file_line w e = w.stored (format_log_message w e) ++ w.stored (10 ∷ [])

unfoldable pub write_line : Windows → Disk → LogEntry → LogFile → LogFile
write_line w d e f =
    let t = text_of f.current ++ file_line w e in
    let written = record f { current = some t } in
    if f.is_open
    then (if is_full f.max_file_size t then rotate_log_file d written else written)
    else f
