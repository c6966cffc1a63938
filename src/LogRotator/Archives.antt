-- ===== src/LogRotator/Archives.antt =====
-- LogRotator.cpp: DeleteOldArchives compares times of two clocks.
use tcp_redirector.Prelude.{
  ℕ, true, ltb, ltb→lt, Bool-cases, ◌%◌, ◌*◌, ◌^◌, ◌≤◌, ◌<◌, ◌≡◌, ◌⊎◌, inl, inr, Bool, false, List,
  [], ◌∷◌, Option, none, some, All, ap, refl, arith,
}
use tcp_redirector.LogRotator.{
  Settings, second, Entry, age_limit, cutoff, is_old, is_expired, scan_dir,
}

-- From the year 1601 to the year 1970, in ticks.
abbrev pub epochs_apart : ℕ
epochs_apart = 11644473600 * second

-- A time, if there is one, that counts from 1601 and is not before 1970.
unfoldable pub CountsFrom1601 : Option ℕ → Type 0
CountsFrom1601 none = Unit
CountsFrom1601 (some t) = (epochs_apart ≤ t) × (t < 2 ^ 63)

not_old :
    (o : Option ℕ) (limit : ℕ)
    → CountsFrom1601 o
    → (limit ≤ epochs_apart) ⊎ ((2 ^ 63 ≤ limit) × (limit < 2 ^ 64))
    → is_old o limit ≡ false
unfolding is_old CountsFrom1601
not_old none limit h c = refl
not_old (some t) limit h (inl c) = ground arith
not_old (some t) limit h (inr c) = ground arith

age_limit-days : (days : ℕ) → days < 10000000 → age_limit days ≡ 864000000000 * days
unfolding age_limit
age_limit-days days few =
    let int : 24 * days % 2 ^ 32 ≡ 24 * days = omega arith in
    let positive : ltb (24 * days) (2 ^ 31) ≡ true = ground arith in
    rw (int, positive, age_limit) (omega arith)

-- A limit of fewer than ten million days lies not before the year that its bits can say.
cutoff_lem :
    (s : Settings) (now : ℕ)
    → s.max_age_days < 10000000
    → now ≤ epochs_apart
    → (cutoff s now ≤ epochs_apart) ⊎ ((2 ^ 63 ≤ cutoff s now) × (cutoff s now < 2 ^ 64))
unfolding cutoff
cutoff_lem s now days soon =
    let limit : age_limit s.max_age_days ≡ 864000000000 * s.max_age_days =
      age_limit-days s.max_age_days days in
    elim (Bool-cases (ltb now (864000000000 * s.max_age_days))) [
      | inl e ↦
          let early = ltb→lt now (864000000000 * s.max_age_days) e in
          inr (omega (arith, limit, early), omega arith)
      | inr e ↦
          let late : 864000000000 * s.max_age_days ≤ now = ground arith in
          inl (omega (arith, limit, late))
    ]

not_expired :
    (s : Settings) (now : ℕ) (e : Entry)
    → CountsFrom1601 e.last_write_time
    → s.max_age_days < 10000000
    → now ≤ epochs_apart
    → is_expired s now e ≡ false
unfolding is_expired
not_expired s now e h days soon =
    let old = not_old e.last_write_time (cutoff s now) h (cutoff_lem s now days soon) in
    ground (arith, old)

-- If the times of the files count from 1601, as those of the file clock of MSVC do, and the system clock counts
-- from 1970 and is not yet in the year 2339, then DeleteOldArchives deletes nothing, whatever the age of the files
-- and the settings, the limit being not negative and less than ten million days.
pub scan_dir_keeps :
    (s : Settings) (now : ℕ) (removes : Entry → Bool) (entries : List Entry)
    → s.max_age_days < 10000000
    → now ≤ epochs_apart
    → All (λ e. CountsFrom1601 e.last_write_time) entries
    → scan_dir s now removes entries ≡ entries
unfolding scan_dir
scan_dir_keeps s now removes [] days soon h = refl
scan_dir_keeps s now removes (e ∷ es) days soon h =
    simp (not_expired s now e h.0 days soon)
      (ap (λ rest. e ∷ rest) (scan_dir_keeps s now removes es days soon h.1))
