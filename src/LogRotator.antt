-- ===== src/LogRotator.antt =====
-- infrastructure/logging/LogRotator.cpp and .h: when the log is rotated, and which archives are deleted. Times are
-- ticks of 100 ns of the system clock. localtime_s is a parameter on the seconds of the clock.
pub mod Schedule
pub mod Archives
mod Tests
use tcp_redirector.Prelude.{
  ℕ, ◌+◌, ◌-◌, ◌*◌, ◌/◌, ◌%◌, ◌^◌, Bool, false, not, ◌&&◌, ◌||◌, List, [], ◌∷◌, Option, none, some,
  keep, ltb, ◌==◌, text_eq, if◌then◌else◌,
}

-- `max_age_days` is an int, given by its bit pattern.
pub record Settings : Type 0 where
  pub enabled : Bool
  pub schedule : List ℕ
  pub hour : ℕ
  pub minute : ℕ
  pub max_age_days : ℕ
  pub archive_dir : List ℕ
  pub compress : Bool

-- The fields of `std::tm` that the schedule looks at.
pub record LocalTime : Type 0 where
  pub tm_hour : ℕ
  pub tm_min : ℕ

-- "hourly".
abbrev pub hourly : List ℕ
hourly = b'h' ∷ b'o' ∷ b'u' ∷ b'r' ∷ b'l' ∷ b'y' ∷ []

-- A second, in ticks.
abbrev pub second : ℕ
second = 10000000

-- The test of the schedule.
unfoldable pub is_due : Settings → LocalTime → Bool
is_due s t =
    if text_eq s.schedule hourly
    then t.tm_min == s.minute
    else t.tm_hour == s.hour && t.tm_min == s.minute

unfoldable pub need_rotate : (ℕ → LocalTime) → Settings → ℕ → ℕ → Bool
need_rotate localtime s last_rotate now =
    if s.enabled
    then (if ltb ((now - last_rotate) / second) 60
        then false
        else is_due s (localtime (now / second)))
    else false

-- A round of SchedulerThread: by how much the sixty sleeps of a second last longer, how long it takes until
-- RotateAndArchive reads the clock (the rest of it is part of the next delay), and whether it throws before it
-- records that time.
pub record Round : Type 0 where
  pub delay : ℕ
  pub busy : ℕ
  pub fails : Bool

-- The loop of SchedulerThread while it runs, from the time at which a round begins: the times of the wakes that
-- rotate the log. The clock is not set back, and ForceRotate is not called meanwhile.
unfoldable pub scheduler : (ℕ → LocalTime) → Settings → ℕ → ℕ → List Round → List ℕ
scheduler localtime s last_rotate begin [] = []
scheduler localtime s last_rotate begin (r ∷ rounds) =
    let now = begin + 60 * second + r.delay in
    let recorded = if r.fails then last_rotate else now + r.busy in
    let rotated = scheduler localtime s recorded (now + r.busy) rounds in
    let left = scheduler localtime s last_rotate (now + r.busy) rounds in
    if need_rotate localtime s last_rotate now then now ∷ rotated else left

-- An entry of a directory; `last_write_time` is `none` if it cannot be read.
pub record Entry : Type 0 where
  pub filename : List ℕ
  pub is_regular_file : Bool
  pub last_write_time : Option ℕ

abbrev pub dot : ℕ
dot = b'.'

-- What stands from the last dot on, if there is one.
unfoldable pub from_last_dot : List ℕ → List ℕ
from_last_dot [] = []
from_last_dot (c ∷ cs) = elim (from_last_dot cs) [
  | [] ↦ if c == dot then c ∷ cs else []
  | d ∷ ds ↦ d ∷ ds
]

-- `extension` of a file name; a dot at its begin is none.
unfoldable pub extension : List ℕ → List ℕ
extension [] = []
extension (c ∷ cs) = from_last_dot cs

abbrev pub zip_extension : List ℕ
zip_extension = b'.' ∷ b'z' ∷ b'i' ∷ b'p' ∷ []

abbrev pub log_extension : List ℕ
log_extension = b'.' ∷ b'l' ∷ b'o' ∷ b'g' ∷ []

-- "tcp_redirector.log".
abbrev pub current_log : List ℕ
current_log =
    b't' ∷ b'c' ∷ b'p' ∷ b'_' ∷ b'r' ∷ b'e' ∷ b'd' ∷ b'i' ∷ b'r' ∷ b'e' ∷ b'c' ∷ b't' ∷ b'o' ∷ b'r'
    ∷ b'.' ∷ b'l' ∷ b'o' ∷ b'g' ∷ []

-- 64-bit patterns compared as signed numbers.
abbrev pub signed_lt : ℕ → ℕ → Bool
signed_lt a b = ltb ((a + 2 ^ 63) % 2 ^ 64) ((b + 2 ^ 63) % 2 ^ 64)

-- The ticks of `std::chrono::hours(24 * max_age_days)` as a 64-bit pattern: the product is an int, taken with its
-- sign.
unfoldable pub age_limit : ℕ → ℕ
age_limit max_age_days =
    let hours = 24 * max_age_days % 2 ^ 32 in
    let extended = if ltb hours (2 ^ 31) then hours else hours + (2 ^ 64 - 2 ^ 32) in
    extended * (3600 * second) % 2 ^ 64

unfoldable pub cutoff : Settings → ℕ → ℕ
unfolding age_limit
cutoff s now = (now + 2 ^ 64 - age_limit s.max_age_days) % 2 ^ 64

unfoldable pub is_old : Option ℕ → ℕ → Bool
is_old none limit = false
is_old (some time) limit = signed_lt time limit

-- The tests of DeleteOldArchives on an entry.
unfoldable pub is_expired : Settings → ℕ → Entry → Bool
unfolding cutoff
is_expired s now e =
    let ext = extension e.filename in
    e.is_regular_file
    && (text_eq ext zip_extension || text_eq ext log_extension)
    && not (text_eq e.filename current_log)
    && is_old e.last_write_time (cutoff s now)

-- One directory after DeleteOldArchives; `removes` says which files can be removed.
unfoldable pub scan_dir : Settings → ℕ → (Entry → Bool) → List Entry → List Entry
scan_dir s now removes entries = keep (λ e. not (is_expired s now e && removes e)) entries
