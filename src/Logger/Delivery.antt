-- ===== src/Logger/Delivery.antt =====
-- Logger.cpp: what becomes of the entries that are logged.
use Prim.Native.Nat.{min}
use tcp_redirector.Prelude.{
  ℕ, ◌-◌, ◌<◌, ◌≡◌, List, [], ◌∷◌, ◌++◌, refl, sym, ap, fun_ext, add64, ◌∙◌, arith, inl, inr,
  Bool-cases, if◌then◌else◌, ltb, append-nil, append_assoc, length, drop, u64_mod,
}
use tcp_redirector.Logger.Entities.{LogEntry, Logger, Disk, Windows, rank}
use tcp_redirector.Logger.Ring.{add_to_ring_buffer, get_recent_entries}
use tcp_redirector.Logger.Recent.{add_all, get_recent_entries-add_all}
use tcp_redirector.Logger.Writer.{
  Phase, waiting, writing, ended, Writer, Turn, logs, sets, stops, takes, writes, take_batch,
  write_next, write_entry, step, run,
}
use tcp_redirector.Logger.{log_at, set_level, write_color_console, notify_listeners, call_back}

-- What is still to be written.
abbrev pub batch : Phase → List LogEntry
batch waiting = []
batch (writing es) = es
batch ended = []

abbrev pub pending : Writer → List LogEntry
pending s = batch s.phase ++ s.logger.queue

-- What a turn adds: the entry of a call of `Log` whose level is not below that of the logger.
abbrev pub accepted : Turn → Writer → List LogEntry
accepted (logs now level logger message file line function) s =
    if ltb (rank level) (rank s.logger.current_level)
    then []
    else (record {
      timestamp = now;
      level = level;
      logger = logger;
      message = message;
      file = file;
      line = line;
      function = function;
    })
      ∷ []
accepted _ s = []

abbrev pub first : Phase → List LogEntry
first (writing (e ∷ es)) = e ∷ []
first _ = []

-- What a turn writes.
abbrev pub written : Turn → Writer → List LogEntry
written (writes d) s = first s.phase
written _ s = []

abbrev pub all_accepted : Windows → List Turn → Writer → List LogEntry
all_accepted w [] s = []
all_accepted w (t ∷ ts) s = accepted t s ++ all_accepted w ts (step w t s)

abbrev pub all_written : Windows → List Turn → Writer → List LogEntry
all_written w [] s = []
all_written w (t ∷ ts) s = written t s ++ all_written w ts (step w t s)

write_entry-queue :
    (w : Windows) (d : Disk) (e : LogEntry) (l : Logger) → (write_entry w d e l).queue ≡ l.queue
unfolding write_entry add_to_ring_buffer notify_listeners call_back write_color_console
write_entry-queue w d e l = ground arith

take-pending :
    (p : Phase) (q : List LogEntry) (s : Writer)
    → s.phase ≡ p
    → s.logger.queue ≡ q
    → pending (take_batch p s) ≡ pending s
unfolding take_batch
take-pending waiting [] s e f = ground (arith, e, f)
take-pending waiting (x ∷ xs) s e f = simp (e, f, take_batch) (append-nil (x ∷ xs))
take-pending (writing es) q s e f = refl
take-pending ended q s e f = refl

write-pending :
    (w : Windows) (d : Disk) (p : Phase) (s : Writer)
    → s.phase ≡ p
    → first p ++ pending (write_next w d p s) ≡ pending s
unfolding write_next
write-pending w d waiting s e = refl
write-pending w d ended s e = refl
write-pending w d (writing []) s e = ground (arith, e)
write-pending w d (writing (x ∷ xs)) s e = simp (e, write_entry-queue w d x s.logger) refl

step-pending :
    (w : Windows) (t : Turn) (s : Writer)
    → written t s ++ pending (step w t s) ≡ pending s ++ accepted t s
unfolding step log_at set_level
step-pending w (logs now level logger message file line function) s =
    elim (Bool-cases (ltb (rank level) (rank s.logger.current_level))) [
      | inl low ↦ simp low (sym (append-nil (pending s)))
      | inr high ↦ simp high (sym (append_assoc (batch s.phase) s.logger.queue _))
    ]
step-pending w (sets level) s = sym (append-nil (pending s))
step-pending w stops s = sym (append-nil (pending s))
step-pending w takes s =
    take-pending s.phase s.logger.queue s refl refl ∙ sym (append-nil (pending s))
step-pending w (writes d) s = write-pending w d s.phase s refl ∙ sym (append-nil (pending s))

run-pending :
    (w : Windows) (ts : List Turn) (s : Writer)
    → all_written w ts s ++ pending (run w ts s) ≡ pending s ++ all_accepted w ts s
run-pending w [] s = sym (append-nil (pending s))
run-pending w (t ∷ ts) s =
    append_assoc (written t s) (all_written w ts (step w t s)) (pending (run w (t ∷ ts) s))
    ∙ ap (λ xs. written t s ++ xs) (run-pending w ts (step w t s))
    ∙ sym (append_assoc (written t s) (pending (step w t s)) (all_accepted w ts (step w t s)))
    ∙ ap (λ xs. xs ++ all_accepted w ts (step w t s)) (step-pending w t s)
    ∙ append_assoc (pending s) (accepted t s) (all_accepted w ts (step w t s))

-- Two loggers whose rings are the same.
abbrev pub SameRing : Logger → Logger → Type 0
SameRing l m = (l.ring ≡ m.ring) × (l.ring_index ≡ m.ring_index)

add-SameRing :
    (e : LogEntry) (l m : Logger)
    → SameRing l m
    → SameRing (add_to_ring_buffer e l) (add_to_ring_buffer e m)
unfolding add_to_ring_buffer
add-SameRing e l m h = (
  fun_ext (λ i. ground (arith, ap (λ (r : ℕ → LogEntry). r i) h.0, h.1)),
  ap (λ n. add64 n 1) h.1,
)

add_all-SameRing :
    (es : List LogEntry) (l m : Logger) → SameRing l m → SameRing (add_all es l) (add_all es m)
add_all-SameRing [] l m h = h
add_all-SameRing (e ∷ es) l m h =
    add_all-SameRing es (add_to_ring_buffer e l) (add_to_ring_buffer e m) (add-SameRing e l m h)

write_entry-SameRing :
    (w : Windows) (d : Disk) (e : LogEntry) (l : Logger)
    → SameRing (write_entry w d e l) (add_to_ring_buffer e l)
unfolding write_entry notify_listeners call_back write_color_console
write_entry-SameRing w d e l = add-SameRing e _ l (ground arith, ground arith)

take-SameRing : (p : Phase) (s : Writer) → SameRing (take_batch p s).logger s.logger
unfolding take_batch
take-SameRing waiting s = (ground arith, ground arith)
take-SameRing (writing es) s = (refl, refl)
take-SameRing ended s = (refl, refl)

write-SameRing :
    (w : Windows) (d : Disk) (p : Phase) (s : Writer)
    → SameRing (write_next w d p s).logger (add_all (first p) s.logger)
unfolding write_next
write-SameRing w d waiting s = (refl, refl)
write-SameRing w d ended s = (refl, refl)
write-SameRing w d (writing []) s = (ground arith, ground arith)
write-SameRing w d (writing (x ∷ xs)) s = write_entry-SameRing w d x s.logger

step-SameRing :
    (w : Windows) (t : Turn) (s : Writer)
    → SameRing (step w t s).logger (add_all (written t s) s.logger)
unfolding step log_at set_level
step-SameRing w (logs now level logger message file line function) s =
    elim (Bool-cases (ltb (rank level) (rank s.logger.current_level))) [
      | inl low ↦ simp low (refl, refl)
      | inr high ↦ simp high (refl, refl)
    ]
step-SameRing w (sets level) s = (refl, refl)
step-SameRing w stops s = (refl, refl)
step-SameRing w takes s = take-SameRing s.phase s
step-SameRing w (writes d) s = write-SameRing w d s.phase s

add_all-append :
    (xs ys : List LogEntry) (l : Logger) → add_all (xs ++ ys) l ≡ add_all ys (add_all xs l)
add_all-append [] ys l = refl
add_all-append (x ∷ xs) ys l = add_all-append xs ys (add_to_ring_buffer x l)

run-SameRing :
    (w : Windows) (ts : List Turn) (s : Writer)
    → SameRing (run w ts s).logger (add_all (all_written w ts s) s.logger)
run-SameRing w [] s = (refl, refl)
run-SameRing w (t ∷ ts) s =
    let later = run-SameRing w ts (step w t s) in
    let now =
      add_all-SameRing (all_written w ts (step w t s)) (step w t s).logger
        (add_all (written t s) s.logger) (step-SameRing w t s) in
    let both = add_all-append (written t s) (all_written w ts (step w t s)) s.logger in
    simp both (later.0 ∙ now.0, later.1 ∙ now.1)

get_recent_entries-SameRing :
    (k : ℕ) (l m : Logger) → SameRing l m → get_recent_entries k l ≡ get_recent_entries k m
unfolding get_recent_entries
get_recent_entries-SameRing k l m h = simp (h.0, h.1) refl

-- However the calls and the turns of the thread are ordered, the entries that are written are, in order, those
-- that waited first and then those of the calls of `Log` whose level is not below the level of the logger at the
-- call, up to those that still wait; and `GetRecentEntries` gives the last of them, as many as it is asked for,
-- but at most 2000 and at most all. The ring is empty at first, and fewer than 2 ^ 64 entries are written.
pub run-delivers :
    (w : Windows) (ts : List Turn) (s : Writer) (k : ℕ)
    → s.logger.ring_index ≡ 0
    → length (all_written w ts s) < u64_mod
    → (all_written w ts s ++ pending (run w ts s) ≡ pending s ++ all_accepted w ts s)
      × (get_recent_entries k (run w ts s).logger
          ≡ drop (length (all_written w ts s) - min k 2000) (all_written w ts s))
run-delivers w ts s k clear small = (
  run-pending w ts s,
  get_recent_entries-SameRing k (run w ts s).logger (add_all (all_written w ts s) s.logger)
        (run-SameRing w ts s)
      ∙ get_recent_entries-add_all k (all_written w ts s) s.logger clear small,
)
