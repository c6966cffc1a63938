-- ===== src/ConnectionTable/Calls.antt =====
-- ConnectionTable.h: the methods that change the table as calls, and what a port should have after them.
use tcp_redirector.Prelude.{ℕ, ◌<◌, List, [], ◌∷◌, Option, none, some, length, ◌==◌, if◌then◌else◌}
use tcp_redirector.ConnectionTable.{
  ConnectionEntry, ConnectionTable, path_size, clear, add, remove, set_process_info, add_bytes,
  with_process, with_pid, with_bytes,
}
use tcp_redirector.ConnectionTable.Chains.{stored, rest}
use tcp_redirector.ConnectionTable.View.{change_newest}

-- The calls that change a table; the path of `set_process_call` is `none` for a null pointer.
pub data Call : Type 0 where
  add_call : (port from ip dest config : ℕ) → Call
  remove_call : (port : ℕ) → Call
  set_process_call : (port pid : ℕ) (path : Option (List ℕ)) → Call
  add_bytes_call : (port up down : ℕ) → Call
  clear_call : Call

-- The path of a call fits the array of an entry.
unfoldable pub Fits : Call → Type 0
Fits (set_process_call port pid (some path)) = length path < path_size
Fits _ = Unit

-- What a port should have after a call, newest first, given what it had before.
unfoldable pub expected : Call → ℕ → List ConnectionEntry → List ConnectionEntry
expected (add_call port from ip dest config) q es =
    if q == port then stored port from ip dest config es else es
expected (remove_call port) q es = if q == port then rest es else es
expected (set_process_call port pid none) q es =
    if q == port then change_newest (with_pid pid) es else es
expected (set_process_call port pid (some path)) q es =
    if q == port then change_newest (with_process pid path) es else es
expected (add_bytes_call port up down) q es =
    if q == port then change_newest (with_bytes up down) es else es
expected clear_call q es = []

unfoldable pub expected_all : List Call → ℕ → List ConnectionEntry → List ConnectionEntry
expected_all [] q es = es
expected_all (c ∷ cs) q es = expected_all cs q (expected c q es)

module _ (size : ℕ) where
  -- `none` if `wcscpy_s` ends the process.
  unfoldable pub step : Call → ConnectionTable → Option ConnectionTable
  step (add_call port from ip dest config) t = some (add size t port from ip dest config)
  step (remove_call port) t = some (remove size t port)
  step (set_process_call port pid path) t = set_process_info size t port pid path
  step (add_bytes_call port up down) t = some (add_bytes size t port up down)
  step clear_call t = some (clear size t)

  unfoldable pub run : List Call → ConnectionTable → Option ConnectionTable
  run [] t = some t
  run (c ∷ cs) t = elim (step c t) [ none ↦ none | some u ↦ run cs u ]
