-- ===== src/Logger/Kept.antt =====
-- Logger.cpp: what the rotation by size keeps.
use tcp_redirector.Prelude.{
  ℕ, ◌-◌, ◌<◌, ◌≡◌, true, List, [], ◌∷◌, ◌++◌, Option, some, refl, sym, ap, ◌∙◌, arith, inl, inr,
  Bool-cases, ◌==◌, if◌then◌else◌, append-nil, append_assoc, u64_mod,
}
use tcp_redirector.Logger.Entities.{LogEntry, LogFile, Disk, Windows}
use tcp_redirector.Logger.Files.{Backups, is_full, file_line, write_line}
use tcp_redirector.Logger.Moves.{Works, rotate-backups, rotate-rest}

-- The log as it is meant: the files that are full, the newest first, and the one that is written.
pub record Journal : Type 0 where
  pub closed : List (List ℕ)
  pub current : List ℕ

abbrev pub append_line : ℕ → List ℕ → Journal → Journal
append_line max line g =
    let t = g.current ++ line in
    if is_full max t
    then record { closed = t ∷ g.closed; current = [] }
    else record { closed = g.closed; current = t }

abbrev pub append_lines : Windows → ℕ → List LogEntry → Journal → Journal
append_lines w max [] g = g
append_lines w max (e ∷ es) g = append_lines w max es (append_line max (file_line w e) g)

-- What the journal's files hold, from the oldest on.
abbrev pub joined : List (List ℕ) → List ℕ → List ℕ
joined [] t = t
joined (c ∷ cs) t = joined cs (c ++ t)

-- The backup of a number, where the newest file has the number 1 and those of before come after them.
abbrev pub expected : List (List ℕ) → Backups → ℕ → Option (List ℕ)
expected [] b j = b j
expected (c ∷ cs) b j = let older = expected cs b (j - 1) in if j == 1 then some c else older

-- Entries are written, each with what the file system does if the file is rotated.
abbrev pub write_lines : Windows → List (Disk × LogEntry) → LogFile → LogFile
write_lines w [] f = f
write_lines w ((d, e) ∷ es) f = write_lines w es (write_line w d e f)

abbrev pub entries : List (Disk × LogEntry) → List LogEntry
entries [] = []
entries ((d, e) ∷ es) = e ∷ entries es

abbrev pub AllWork : List (Disk × LogEntry) → Type 0
AllWork [] = Unit {0}
AllWork ((d, e) ∷ es) = Works d × AllWork es

-- The files are those of the journal; `b` are the backups of before.
pub record Keeps (max : ℕ) (b : Backups) (g : Journal) (f : LogFile) : Type 0 where
  pub limit : f.max_file_size ≡ max
  pub many : 1 < f.max_files
  pub small : f.max_files < u64_mod
  pub is_open : f.is_open ≡ true
  pub current : f.current ≡ some g.current
  pub backups : (j : ℕ) → 0 < j → j < f.max_files → f.backups j ≡ expected g.closed b j

write_line-Keeps :
    (w : Windows) (d : Disk) (e : LogEntry) (max : ℕ) (b : Backups) (g : Journal) (f : LogFile)
    → Works d
    → Keeps max b g f
    → Keeps max b (append_line max (file_line w e) g) (write_line w d e f)
unfolding write_line
write_line-Keeps w d e max b g f works k =
    let t = g.current ++ file_line w e in
    let written : LogFile = record f { is_open = true; current = some t; max_file_size = max } in
    elim (Bool-cases (is_full max t)) [
      | inr a ↦
          simp (k.limit, k.is_open, k.current, a)
            (record {
              limit = refl;
              many = k.many;
              small = k.small;
              is_open = refl;
              current = refl;
              backups = k.backups;
            })
      | inl a ↦
          let rest = rotate-rest d written t works refl in
          simp (k.limit, k.is_open, k.current, a)
            (record {
              limit = rest.3;
              many = rw rest.2 k.many;
              small = rw rest.2 k.small;
              is_open = rest.0;
              current = rest.1;
              backups = λ j pos below.
                  let under : j < f.max_files = rw (← rest.2) below in
                  let moved =
                    rotate-backups d written t j works.moves k.many k.small refl pos under in
                  ground (arith, moved, works.renames_log, k.backups (j - 1));
            })
    ]

joined-append_line :
    (max : ℕ) (line : List ℕ) (g : Journal)
    → joined (append_line max line g).closed (append_line max line g).current
      ≡ joined g.closed (g.current ++ line)
joined-append_line max line g = elim (Bool-cases (is_full max (g.current ++ line))) [
  | inl a ↦ simp a (ap (joined g.closed) (append-nil (g.current ++ line)))
  | inr a ↦ simp a refl
]

joined-append : (cs : List (List ℕ)) (t line : List ℕ) → joined cs (t ++ line) ≡ joined cs t ++ line
joined-append [] t line = refl
joined-append (c ∷ cs) t line =
    ap (joined cs) (sym (append_assoc c t line)) ∙ joined-append cs (c ++ t) line

abbrev pub lines : Windows → List LogEntry → List ℕ
lines w [] = []
lines w (e ∷ es) = file_line w e ++ lines w es

-- The journal loses nothing.
joined-append_lines :
    (w : Windows) (max : ℕ) (es : List LogEntry) (g : Journal)
    → joined (append_lines w max es g).closed (append_lines w max es g).current
      ≡ joined g.closed g.current ++ lines w es
joined-append_lines w max [] g = sym (append-nil (joined g.closed g.current))
joined-append_lines w max (e ∷ es) g =
    joined-append_lines w max es (append_line max (file_line w e) g)
    ∙ ap (λ t. t ++ lines w es)
        (joined-append_line max (file_line w e) g
          ∙ joined-append g.closed g.current (file_line w e))
    ∙ append_assoc (joined g.closed g.current) (file_line w e) (lines w es)

write_lines-Keeps :
    (w : Windows) (es : List (Disk × LogEntry)) (max : ℕ) (b : Backups) (g : Journal) (f : LogFile)
    → AllWork es
    → Keeps max b g f
    → Keeps max b (append_lines w max (entries es) g) (write_lines w es f)
write_lines-Keeps w [] max b g f works k = k
write_lines-Keeps w ((d, e) ∷ es) max b g f works k =
    write_lines-Keeps w es max b (append_line max (file_line w e) g) (write_line w d e f) works.1
      (write_line-Keeps w d e max b g f works.0 k)

-- While every rotation succeeds, the log file and its backups, those with a number below the number of files,
-- are those of a journal that holds what the log file had and after it every line that was written, in order: a
-- new file is begun when one is full, the log file is the one that is written, and the k-th backup is the k-th
-- before it; the backups of before come after them. The file is open at first, and there are at least two files
-- and fewer than 2 ^ 64.
pub write_lines-journal :
    (w : Windows) (es : List (Disk × LogEntry)) (t : List ℕ) (f : LogFile)
    → AllWork es
    → 1 < f.max_files
    → f.max_files < u64_mod
    → f.is_open ≡ true
    → f.current ≡ some t
    → let start : Journal = record { closed = []; current = t } in
      let g = append_lines w f.max_file_size (entries es) start in
      (joined g.closed g.current ≡ t ++ lines w (entries es))
      × Keeps f.max_file_size f.backups g (write_lines w es f)
write_lines-journal w es t f works many small open_now now =
    let start : Journal = record { closed = []; current = t } in
    (
      joined-append_lines w f.max_file_size (entries es) start,
      write_lines-Keeps w es f.max_file_size f.backups start f works (record {
        limit = refl;
        many = many;
        small = small;
        is_open = open_now;
        current = now;
        backups = λ j pos below. refl;
      }),
    )
