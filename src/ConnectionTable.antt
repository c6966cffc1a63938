-- ===== src/ConnectionTable.antt =====
-- service/.../infrastructure/relay/ConnectionTable.h. `connection_hash_size` is the macro, a parameter
-- of the build. A chain is a list, its head the entry that `m_table` points to; the lock makes each method one
-- step. `wcscpy_s` ends the process if the text does not fit: such a step is `none`.
pub mod Chains
pub mod Placement
pub mod Upkeep
pub mod View
pub mod Lookups
pub mod Calls
pub mod History
mod Tests
use tcp_redirector.Prelude.{
  ℕ, ◌%◌, Bool, true, false, ◌&&◌, List, [], ◌∷◌, Option, none, some, length, get_or, set,
  replicate, ltb, ◌==◌, add32, dec32, add64, if◌then◌else◌,
}

pub record ConnectionEntry : Type 0 where
  pub src_port : ℕ
  pub src_ip : ℕ
  pub orig_dest_ip : ℕ
  pub orig_dest_port : ℕ
  pub proxy_config_id : ℕ
  pub is_tracked : Bool
  pub pid : ℕ
  pub proc_path : List ℕ
  pub bytes_up : ℕ
  pub bytes_down : ℕ

pub record ConnectionInfo : Type 0 where
  pub pid : ℕ
  pub proc_path : List ℕ
  pub bytes_up : ℕ
  pub bytes_down : ℕ

-- The length of the path arrays.
abbrev pub path_size : ℕ
path_size = 260

-- `wcscpy_s` of a text to an array of `path_size` units.
abbrev pub wcscpy_s : List ℕ → Option (List ℕ)
wcscpy_s text = if ltb (length text) path_size then some text else none

abbrev pub has_port : ℕ → ConnectionEntry → Bool
has_port port e = e.src_port == port

abbrev pub has_key : ℕ → ℕ → ConnectionEntry → Bool
has_key port ip e = e.src_port == port && e.orig_dest_ip == ip

abbrev pub is_live : ℕ → ConnectionEntry → Bool
is_live port e = e.src_port == port && e.is_tracked

-- The first entry with the key, updated as `Add` does.
unfoldable pub update_key : ℕ → ℕ → ℕ → ℕ → ℕ → List ConnectionEntry → Option (List ConnectionEntry)
update_key port src_ip ip dest_port config [] = none
update_key port src_ip ip dest_port config (e ∷ es) =
    if has_key port ip e
    then some (
        record e {
          src_ip = src_ip;
          orig_dest_port = dest_port;
          proxy_config_id = config;
          is_tracked = true;
        }
        ∷ es)
    else elim (update_key port src_ip ip dest_port config es) [
      | none ↦ none
      | some fs ↦ some (e ∷ fs)
    ]

-- `new ConnectionEntry()` with the fields that `Add` sets.
abbrev pub new_entry : ℕ → ℕ → ℕ → ℕ → ℕ → ConnectionEntry
new_entry port from ip dest config = record {
  src_port = port;
  src_ip = from;
  orig_dest_ip = ip;
  orig_dest_port = dest;
  proxy_config_id = config;
  is_tracked = true;
  pid = 0;
  proc_path = [];
  bytes_up = 0;
  bytes_down = 0;
}

-- The loop of every lookup: the first tracked entry of the port.
unfoldable pub find_live : ℕ → List ConnectionEntry → Option ConnectionEntry
find_live port [] = none
find_live port (e ∷ es) = if is_live port e then some e else find_live port es

-- That entry changed in place.
unfoldable pub change_live :
    ℕ → (ConnectionEntry → ConnectionEntry) → List ConnectionEntry → List ConnectionEntry
change_live port f [] = []
change_live port f (e ∷ es) = if is_live port e then f e ∷ es else e ∷ change_live port f es

-- The chain without its first entry of the port, tracked or not.
unfoldable pub remove_port : ℕ → List ConnectionEntry → Option (List ConnectionEntry)
remove_port port [] = none
remove_port port (e ∷ es) =
    if has_port port e
    then some es
    else elim (remove_port port es) [ none ↦ none | some fs ↦ some (e ∷ fs) ]

pub record ConnectionTable : Type 0 where
  pub table : List (List ConnectionEntry)
  pub tracked_count : ℕ

-- The field updates of `SetProcessInfo` and of `AddBytes`.
abbrev pub with_process : ℕ → List ℕ → ConnectionEntry → ConnectionEntry
with_process pid path e = record e { pid = pid; proc_path = path }

abbrev pub with_pid : ℕ → ConnectionEntry → ConnectionEntry
with_pid pid e = record e { pid = pid }

abbrev pub with_bytes : ℕ → ℕ → ConnectionEntry → ConnectionEntry
with_bytes up down e = record e {
  bytes_up = add64 e.bytes_up up;
  bytes_down = add64 e.bytes_down down;
}

module _ (connection_hash_size : ℕ) where
  -- The constructor.
  unfoldable pub empty : ConnectionTable
  empty = record { table = replicate connection_hash_size []; tracked_count = 0 }

  abbrev pub clear : ConnectionTable → ConnectionTable
  clear t = record { table = replicate connection_hash_size []; tracked_count = 0 }

  abbrev pub hash : ℕ → ℕ
  hash port = port % connection_hash_size

  abbrev pub chain : ConnectionTable → ℕ → List ConnectionEntry
  chain t port = get_or t.table (hash port) []

  abbrev pub set_chain : ConnectionTable → ℕ → List ConnectionEntry → ConnectionTable
  set_chain t port es = record t { table = set t.table (hash port) es }

  unfoldable pub add : ConnectionTable → ℕ → ℕ → ℕ → ℕ → ℕ → ConnectionTable
  unfolding update_key
  add t port src_ip ip dest_port config =
      elim (update_key port src_ip ip dest_port config (chain t port)) [
        | some es ↦ set_chain t port es
        | none ↦
            record (set_chain t port (new_entry port src_ip ip dest_port config ∷ chain t port)) {
              tracked_count = add32 t.tracked_count 1;
            }
      ]

  -- The original destination, or `none` where the code returns false.
  unfoldable pub get : ConnectionTable → ℕ → Option (ℕ × ℕ)
  unfolding find_live
  get t port = elim (find_live port (chain t port)) [
    | none ↦ none
    | some e ↦ some (e.orig_dest_ip, e.orig_dest_port)
  ]

  unfoldable pub get_proxy_config_id : ConnectionTable → ℕ → ℕ
  unfolding find_live
  get_proxy_config_id t port = elim (find_live port (chain t port)) [
    | none ↦ 0
    | some e ↦ e.proxy_config_id
  ]

  unfoldable pub is_tracked : ConnectionTable → ℕ → Bool
  unfolding find_live
  is_tracked t port = elim (find_live port (chain t port)) [ none ↦ false | some e ↦ true ]

  unfoldable pub remove : ConnectionTable → ℕ → ConnectionTable
  unfolding remove_port
  remove t port = elim (remove_port port (chain t port)) [
    | none ↦ t
    | some es ↦ record (set_chain t port es) {
      tracked_count = if ltb 0 t.tracked_count then dec32 t.tracked_count else t.tracked_count;
    }
  ]

  -- The path is a pointer, `none` if null.
  unfoldable pub set_process_info :
      ConnectionTable → ℕ → ℕ → Option (List ℕ) → Option ConnectionTable
  unfolding find_live change_live
  set_process_info t port pid none =
      some (set_chain t port (change_live port (with_pid pid) (chain t port)))
  set_process_info t port pid (some text) = elim (find_live port (chain t port)) [
    | none ↦ some t
    | some e ↦ elim (wcscpy_s text) [
      | none ↦ none
      | some path ↦
          some (set_chain t port (change_live port (with_process pid path) (chain t port)))
    ]
  ]

  unfoldable pub add_bytes : ConnectionTable → ℕ → ℕ → ℕ → ConnectionTable
  unfolding change_live
  add_bytes t port up down = set_chain t port (change_live port (with_bytes up down) (chain t port))

  -- `none` if the copy of the path ends the process; else what is found, if anything.
  unfoldable pub get_info : ConnectionTable → ℕ → Option (Option ConnectionInfo)
  unfolding find_live
  get_info t port = elim (find_live port (chain t port)) [
    | none ↦ some none
    | some e ↦ elim (wcscpy_s e.proc_path) [
      | none ↦ none
      | some path ↦ some (
          some (record {
            pid = e.pid;
            proc_path = path;
            bytes_up = e.bytes_up;
            bytes_down = e.bytes_down;
          }))
    ]
  ]
