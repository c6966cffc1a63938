-- ===== src/Logger/Moves.antt =====
-- Logger.cpp: what one rotation does to the files.
use tcp_redirector.Prelude.{
  ℕ, zero, suc, ◌-◌, ◌<◌, ◌≡◌, true, List, [], none, some, refl, arith, inl, inr, Bool-cases,
  Option-cases, leb, ◌==◌, if◌then◌else◌, sub64, u64_mod,
}
use tcp_redirector.Logger.Entities.{LogFile, Disk}
use tcp_redirector.Logger.Files.{
  Backups, put, move, shift, move_log, open_log_file, rotate_log_file,
}

-- The backups can be moved.
pub record Moves (d : Disk) : Type 0 where
  pub removes : d.removes ≡ true
  pub renames : (k : ℕ) → d.renames k ≡ true

move_lem :
    (d : Disk) (k j : ℕ) (b : Backups)
    → Moves d
    → b (suc k) ≡ none
    → move d k b j ≡ (if j == k then none else if j == suc k then b k else b j)
unfolding move
move_lem d k j b m free = elim (Option-cases (b k)) [
  | inl e ↦ ground (arith, free, e)
  | inr (t, e) ↦ ground (arith, free, e, m.renames k)
]

-- After the loop every backup up to the number has the one before it.
pub shift_lem :
    (d : Disk) (n j : ℕ) (b : Backups)
    → Moves d
    → b n ≡ none
    → shift d n b j ≡ (if j == 0 then none else if leb j n then b (j - 1) else b j)
unfolding shift
shift_lem d zero j b m free = ground (arith, free)
shift_lem d (suc n) j b m free =
    let made = λ (i : ℕ). move_lem d n i b m free in
    ground (arith, shift_lem d n j (move d n b) m (ground (arith, made n)), made j, made (j - 1))

pub rotate-shifted :
    (d : Disk) (f : LogFile) (t : List ℕ)
    → Moves d
    → f.current ≡ some t
    → (rotate_log_file d f).backups ≡ (
        let last = sub64 f.max_files 1 in
        let shifted = shift d last (put last none f.backups) in
        if d.renames_log then put 1 (some t) shifted else shifted)
unfolding rotate_log_file move_log open_log_file
rotate-shifted d f t m now = elim (Bool-cases d.opens) [
  | inl o ↦ elim (Bool-cases d.renames_log) [
    | inl r ↦ simp (m.removes, now, o, r) refl
    | inr r ↦ simp (m.removes, now, o, r) refl
  ]
  | inr o ↦ elim (Bool-cases d.renames_log) [
    | inl r ↦ simp (m.removes, now, o, r) refl
    | inr r ↦ simp (m.removes, now, o, r) refl
  ]
]

pub sub64-one : (n : ℕ) → 0 < n → n < u64_mod → sub64 n 1 ≡ n - 1
sub64-one n pos small = omega arith

-- A rotation moves each backup on by one and, if it can rename the log, makes that the first.
pub rotate-backups :
    (d : Disk) (f : LogFile) (t : List ℕ) (j : ℕ)
    → Moves d
    → 1 < f.max_files
    → f.max_files < u64_mod
    → f.current ≡ some t
    → 0 < j
    → j < f.max_files
    → (rotate_log_file d f).backups j
      ≡ (if j == 1 then (if d.renames_log then some t else f.backups 0) else f.backups (j - 1))
rotate-backups d f t j m many small now pos below =
    let last = f.max_files - 1 in
    let e = sub64-one f.max_files (omega arith) small in
    let shifted = shift_lem d last j (put last none f.backups) m (ground arith) in
    rw (rotate-shifted d f t m now, e) (ground (arith, shifted))

-- All that a rotation does succeeds.
pub record Works (d : Disk) : Type 0 where
  pub moves : Moves d
  pub renames_log : d.renames_log ≡ true
  pub opens : d.opens ≡ true

pub rotate-rest :
    (d : Disk) (f : LogFile) (t : List ℕ)
    → Works d
    → f.current ≡ some t
    → ((rotate_log_file d f).is_open ≡ true)
      × ((rotate_log_file d f).current ≡ some [])
      × ((rotate_log_file d f).max_files ≡ f.max_files)
      × ((rotate_log_file d f).max_file_size ≡ f.max_file_size)
unfolding rotate_log_file move_log open_log_file
rotate-rest d f t w now = simp (now, w.renames_log, w.opens) (refl, refl, refl, refl)
