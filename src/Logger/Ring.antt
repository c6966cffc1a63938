-- ===== src/Logger/Ring.antt =====
-- Logger.cpp: the ring buffer of the last entries.
use tcp_redirector.Prelude.{
  ℕ, zero, suc, ◌+◌, ◌-◌, ◌%◌, List, [], ◌∷◌, ◌++◌, ltb, leb, ◌==◌, add64, if◌then◌else◌,
}
use tcp_redirector.Logger.Entities.{LogEntry, Logger}

abbrev pub ring_buffer_size : ℕ
ring_buffer_size = 2000

unfoldable pub add_to_ring_buffer : LogEntry → Logger → Logger
add_to_ring_buffer e l =
    let idx = l.ring_index % ring_buffer_size in
    record l { ring = λ i. if i == idx then e else l.ring i; ring_index = add64 l.ring_index 1 }

-- The entries at so many places from a place on.
unfoldable pub slice : (ℕ → LogEntry) → ℕ → ℕ → List LogEntry
slice ring i zero = []
slice ring i (suc count) = ring i ∷ slice ring (i + 1) count

-- The same, around the end of the buffer.
unfoldable pub slice_around : (ℕ → LogEntry) → ℕ → ℕ → List LogEntry
slice_around ring i zero = []
slice_around ring i (suc count) = ring i ∷ slice_around ring ((i + 1) % ring_buffer_size) count

unfoldable pub get_recent_entries : ℕ → Logger → List LogEntry
get_recent_entries max_count l =
    let idx = l.ring_index in
    let total = if ltb idx ring_buffer_size then idx else ring_buffer_size in
    let wrap = idx % ring_buffer_size in
    let start = if ltb max_count total then total - max_count else 0 in
    if total == 0
    then []
    else if ltb idx ring_buffer_size
    then slice l.ring start (total - start)
    else if leb total max_count
    then slice l.ring wrap (ring_buffer_size - wrap) ++ slice l.ring 0 wrap
    else slice_around l.ring ((wrap + (total - max_count)) % ring_buffer_size) max_count
