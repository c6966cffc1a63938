-- ===== src/LogRotator/Tests.antt =====
-- LogRotator.cpp on small inputs.
use tcp_redirector.Prelude.{
  ℕ, false, ◌*◌, ◌/◌, ◌%◌, ◌≡◌, true, List, [], ◌∷◌, some, text_eq, refl, arith,
}
use tcp_redirector.LogRotator.{
  Settings, LocalTime, hourly, second, is_due, need_rotate, Round, scheduler, age_limit, cutoff,
  Entry, current_log, zip_extension, from_last_dot, extension, is_old, is_expired, scan_dir,
}
use tcp_redirector.LogRotator.Archives.{CountsFrom1601, scan_dir_keeps}

-- At the fifth minute of every hour, archives kept for a day.
abbrev at_five : Settings
at_five = record {
  enabled = true;
  schedule = hourly;
  hour = 0;
  minute = 5;
  max_age_days = 1;
  archive_dir = [];
  compress = true;
}

abbrev utc : ℕ → LocalTime
utc t = record { tm_hour = t / 3600 % 24; tm_min = t / 60 % 60 }

-- Wakes 61 seconds apart, from 180 seconds on.
abbrev rounds : List Round
rounds =
    let late : Round = record { delay = second; busy = 0; fails = false } in late ∷ late ∷ late ∷ []

-- The log is rotated at 302 seconds.
one_rotation : scheduler utc at_five 1800000000 1800000000 rounds ≡ 3020000000 ∷ []
unfolding scheduler need_rotate is_due text_eq
one_rotation = refl

-- Wakes at 299 and at 360 seconds miss the minute.
none_rotated : scheduler utc at_five 0 2380000000 (rounds) ≡ []
unfolding scheduler need_rotate is_due text_eq
none_rotated = refl

-- An archive of two days ago goes, the current log stays.
abbrev old_zip : Entry
old_zip = record {
  filename = b'a' ∷ zip_extension;
  is_regular_file = true;
  last_write_time = some 0;
}

abbrev the_log : Entry
the_log = record { filename = current_log; is_regular_file = true; last_write_time = some 0 }

only_the_log :
    scan_dir at_five (2 * 86400 * second) (λ e. true) (old_zip ∷ the_log ∷ []) ≡ the_log ∷ []
unfolding scan_dir is_expired cutoff age_limit is_old extension from_last_dot text_eq
only_the_log = refl

-- The archive was written in 1970, and its time counts from 1601; now it is 2026.
abbrev archive_of_1970 : Entry
archive_of_1970 = record old_zip { last_write_time = some (11644473600 * second) }

archive-CountsFrom1601 : CountsFrom1601 (some (11644473600 * second))
unfolding CountsFrom1601
archive-CountsFrom1601 = (omega arith, omega arith)

scan_dir_keeps_example :
    scan_dir at_five (1780000000 * second) (λ e. true) (archive_of_1970 ∷ []) ≡ archive_of_1970 ∷ []
scan_dir_keeps_example =
    scan_dir_keeps at_five (1780000000 * second) (λ e. true) (archive_of_1970 ∷ []) (omega arith)
      (omega arith) (archive-CountsFrom1601, tt)
