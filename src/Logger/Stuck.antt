-- ===== src/Logger/Stuck.antt =====
-- Logger.cpp: what the rotation does while the log file cannot be renamed.
use tcp_redirector.Prelude.{
  ℕ, suc, ◌+◌, ◌-◌, ◌^◌, ◌<◌, ◌≤◌, ◌≡◌, true, false, List, [], ◌∷◌, ◌++◌, none, some, refl, arith,
  append-nil, append_assoc, length, length-append, u64_mod, sub64,
}
use tcp_redirector.Logger.Entities.{LogEntry, LogFile, Disk, Windows}
use tcp_redirector.Logger.Files.{
  put, move_log, open_log_file, rotate_log_file, is_full, file_line, write_line,
}
use tcp_redirector.Logger.Moves.{Moves, rotate-shifted, shift_lem, sub64-one}
use tcp_redirector.Logger.Kept.{entries, lines, write_lines}

-- Everything but the renaming of the log file succeeds.
pub record Sticks (d : Disk) : Type 0 where
  pub moves : Moves d
  pub renames_log : d.renames_log ≡ false
  pub opens : d.opens ≡ true

abbrev pub AllStick : List (Disk × LogEntry) → Type 0
AllStick [] = Unit {0}
AllStick ((d, e) ∷ es) = Sticks d × AllStick es

-- The log file is full and open, and the backups up to a number are gone.
pub record IsStuck (m n : ℕ) (t : List ℕ) (f : LogFile) : Type 0 where
  pub files : f.max_files ≡ m
  pub many : 1 < m
  pub small : m < u64_mod
  pub is_open : f.is_open ≡ true
  pub current : f.current ≡ some t
  pub begun : 0 < length t
  pub full : f.max_file_size ≤ length t
  pub gone : (j : ℕ) → j ≤ n → j < m → f.backups j ≡ none

rotate-gone :
    (d : Disk) (m n j : ℕ) (t : List ℕ) (f : LogFile)
    → Sticks d
    → IsStuck m n t f
    → j ≤ suc n
    → j < m
    → (rotate_log_file d f).backups j ≡ none
rotate-gone d m n j t f s k near below =
    let last = m - 1 in
    let e : sub64 f.max_files 1 ≡ last = rw k.files (sub64-one m (omega (arith, k.many)) k.small) in
    let shifted = shift_lem d last j (put last none f.backups) s.moves (ground arith) in
    rw (rotate-shifted d f t s.moves k.current, e)
      (simp s.renames_log (ground (arith, shifted, k.many, k.gone (j - 1))))

rotate-IsStuck :
    (d : Disk) (m n : ℕ) (t : List ℕ) (f : LogFile)
    → Sticks d
    → IsStuck m n t f
    → IsStuck m (suc n) t (rotate_log_file d f)
unfolding rotate_log_file move_log open_log_file
rotate-IsStuck d m n t f s k = record {
  files = simp (k.current, s.renames_log, s.opens) k.files;
  many = k.many;
  small = k.small;
  is_open = simp (k.current, s.renames_log, s.opens) refl;
  current = simp (k.current, s.renames_log, s.opens) refl;
  begun = k.begun;
  full = simp (k.current, s.renames_log, s.opens) k.full;
  gone = λ j near below. rotate-gone d m n j t f s k near below;
}

write_line-IsStuck :
    (w : Windows) (d : Disk) (e : LogEntry) (m n : ℕ) (t : List ℕ) (f : LogFile)
    → Sticks d
    → IsStuck m n t f
    → length (t ++ file_line w e) < 2 ^ 31
    → IsStuck m (suc n) (t ++ file_line w e) (write_line w d e f)
unfolding write_line
write_line-IsStuck w d e m n t f s k small =
    let longer = length-append t (file_line w e) in
    let full : is_full f.max_file_size (t ++ file_line w e) ≡ true =
      ground (arith, longer, k.begun, k.full) in
    simp (k.is_open, k.current, full)
      (rotate-IsStuck d m n (t ++ file_line w e)
        (record f { is_open = true; current = some (t ++ file_line w e) }) s
        (record {
          files = k.files;
          many = k.many;
          small = k.small;
          is_open = refl;
          current = refl;
          begun = omega (arith, longer, k.begun);
          full = omega (arith, longer, k.full);
          gone = k.gone;
        }))

write_lines-IsStuck :
    (w : Windows) (es : List (Disk × LogEntry)) (m n : ℕ) (t : List ℕ) (f : LogFile)
    → AllStick es
    → IsStuck m n t f
    → length (t ++ lines w (entries es)) < 2 ^ 31
    → IsStuck m (n + length es) (t ++ lines w (entries es)) (write_lines w es f)
write_lines-IsStuck w [] m n t f s k small =
    let e : n + 0 ≡ n = omega arith in rw (e, append-nil t) k
write_lines-IsStuck w ((d, e) ∷ es) m n t f s k small =
    let same = append_assoc t (file_line w e) (lines w (entries es)) in
    let count : n + suc (length es) ≡ suc n + length es = omega arith in
    let whole : length ((t ++ file_line w e) ++ lines w (entries es)) < 2 ^ 31 = rw same small in
    rw (count, ← same)
      (write_lines-IsStuck w es m (suc n) (t ++ file_line w e) (write_line w d e f) s.1
        (write_line-IsStuck w d e m n t f s.0 k
          (omega (arith, whole, length-append (t ++ file_line w e) (lines w (entries es)))))
        whole)

-- While a full log file cannot be renamed, every line that is written is added to it, and moves the backups on:
-- as many lines as there are files leave no backup. The file is open, there was no backup with the number 0,
-- everything else succeeds, there are at least two files and fewer than 2 ^ 64, and the file stays below 2 ^ 31
-- bytes.
pub write_lines-erases :
    (w : Windows) (es : List (Disk × LogEntry)) (t : List ℕ) (f : LogFile) (j : ℕ)
    → AllStick es
    → 1 < f.max_files
    → f.max_files < u64_mod
    → f.is_open ≡ true
    → f.current ≡ some t
    → f.backups 0 ≡ none
    → 0 < length t
    → f.max_file_size ≤ length t
    → length (t ++ lines w (entries es)) < 2 ^ 31
    → f.max_files ≤ length es
    → j < f.max_files
    → ((write_lines w es f).current ≡ some (t ++ lines w (entries es)))
      × ((write_lines w es f).backups j ≡ none)
write_lines-erases w es t f j s many small open_now now first begun full short all below =
    let k =
      write_lines-IsStuck w es f.max_files 0 t f s
        (record {
          files = refl;
          many = many;
          small = small;
          is_open = open_now;
          current = now;
          begun = begun;
          full = full;
          gone = λ i near under. (let e : i ≡ 0 = omega arith in rw e first);
        })
        short in
    (k.current, k.gone j (omega arith) below)
