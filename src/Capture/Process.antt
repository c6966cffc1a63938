-- ===== src/Capture/Process.antt =====
-- WinDivertCapture.cpp: from a source port to its process and the action for it. What Windows answers is
-- the parameter `Os`; `_wcsicmp(a, b) == 0` is its `same_text`. Paths that it returns fit the arrays they
-- are copied to (the calls are given the arrays' sizes). Logging is left out.
use tcp_redirector.Prelude.{
  ℕ, zero, suc, Bool, true, false, not, ◌&&◌, ◌||◌, List, [], ◌∷◌, Option, none, some, keep, ltb,
  ◌==◌, sub64, if◌then◌else◌,
}
use tcp_redirector.RuleEngine.{Rule, RuleAction, match_rules}

-- The results of `CheckProcessRule`: 0, 1 and 2.
pub data Action : Type 0 where
  direct proxy block : Action

pub record ProcessEntry : Type 0 where
  pub process_id : ℕ
  pub parent_id : ℕ

pub record Os : Type 0 where
  -- `GetTickCount64`, when the cache is read and when it is written.
  pub read_ticks : ℕ
  pub write_ticks : ℕ
  -- The rows of `GetExtendedTcpTable`, local port in host order and owner; `none` if it gives no table.
  pub tcp_table : Option (List (ℕ × ℕ))
  pub own_id : ℕ
  -- `OpenProcess` with `QueryFullProcessImageNameW`; `none` if either fails.
  pub image_path : ℕ → Option (List ℕ)
  -- `CreateToolhelp32Snapshot` with the entries that `Process32FirstW` and `Process32NextW` give.
  pub snapshot : Option (List ProcessEntry)
  pub same_text : List ℕ → List ℕ → Bool

pub record PidCacheEntry : Type 0 where
  pub port : ℕ
  pub pid : ℕ
  pub timestamp_ms : ℕ

abbrev pub pid_cache_ttl_ms : ℕ
pid_cache_ttl_ms = 30000

unfoldable pub find_cached : List PidCacheEntry → ℕ → Option PidCacheEntry
find_cached [] port = none
find_cached (e ∷ es) port = if e.port == port then some e else find_cached es port

unfoldable pub find_row : List (ℕ × ℕ) → ℕ → Option ℕ
find_row [] port = none
find_row ((local, owner) ∷ rows) port = if local == port then some owner else find_row rows port

-- A scan of the table; what it finds goes to the cache.
unfoldable pub scan_table : List PidCacheEntry → Os → ℕ → ℕ × List PidCacheEntry
unfolding find_row
scan_table cache os port = elim os.tcp_table [
  | none ↦ (0, cache)
  | some rows ↦ elim (find_row rows port) [
    | none ↦ (0, cache)
    | some pid ↦ (
      pid,
      record { port = port; pid = pid; timestamp_ms = os.write_ticks }
          ∷ keep (λ e. not (e.port == port)) cache,
    )
  ]
]

unfoldable pub find_pid_by_source_port : List PidCacheEntry → Os → ℕ → ℕ × List PidCacheEntry
unfolding find_cached scan_table
find_pid_by_source_port cache os port = elim (find_cached cache port) [
  | none ↦ scan_table cache os port
  | some e ↦
      if ltb (sub64 os.read_ticks e.timestamp_ms) pid_cache_ttl_ms
      then (e.pid, cache)
      else scan_table cache os port
]

-- `L'\\'`.
abbrev pub backslash : ℕ
backslash = b'\\'

unfoldable pub has_backslash : List ℕ → Bool
has_backslash [] = false
has_backslash (c ∷ cs) = c == backslash || has_backslash cs

-- The text after the last backslash, or all of it.
unfoldable pub short_name : List ℕ → List ℕ
unfolding has_backslash
short_name [] = []
short_name (c ∷ cs) =
    let later = short_name cs in
    if has_backslash cs then later else if c == backslash then cs else c ∷ cs

-- Whether the loop of `FindTargetPid` stops at a process.
unfoldable pub is_target_entry : Os → List ℕ → ProcessEntry → Bool
unfolding short_name
is_target_entry os target p =
    not (p.process_id == 0 || p.process_id == os.own_id) && (elim (os.image_path p.process_id) [
      | none ↦ false
      | some path ↦ os.same_text (short_name path) (short_name target)
    ])

unfoldable pub find_target : Os → List ℕ → List ProcessEntry → ℕ
unfolding is_target_entry
find_target os target [] = 0
find_target os target (p ∷ ps) =
    if is_target_entry os target p then p.process_id else find_target os target ps

unfoldable pub find_target_pid : Os → List ℕ → ℕ
unfolding find_target
find_target_pid os target = elim os.snapshot [ none ↦ 0 | some ps ↦ find_target os target ps ]

unfoldable pub find_process : List ProcessEntry → ℕ → Option ProcessEntry
find_process [] pid = none
find_process (p ∷ ps) pid = if p.process_id == pid then some p else find_process ps pid

-- The walk from a process to its ancestors: the fuel is what is left of the ten rounds.
unfoldable pub descends : ℕ → List ProcessEntry → ℕ → ℕ → Bool
unfolding find_process
descends zero ps target pid = false
descends (suc fuel) ps target pid = if pid == 0 then false else elim (find_process ps pid) [
  | none ↦ false
  | some p ↦ if p.process_id == target then true else descends fuel ps target p.parent_id
]

abbrev pub max_depth : ℕ
max_depth = 10

-- The members of the component that the check reads.
pub record Settings : Type 0 where
  pub relay_port : ℕ
  pub proxy_host : List ℕ
  pub proxy_port : ℕ
  pub target_path : List ℕ
  pub rules : Option (List Rule)
  -- Whether a connection monitor is set.
  pub monitored : Bool

unfoldable pub is_empty : List ℕ → Bool
is_empty [] = true
is_empty (c ∷ cs) = false

-- Proxy, or Direct if no proxy is configured.
unfoldable pub proxied : Settings → Action
unfolding is_empty
proxied c = if is_empty c.proxy_host || c.proxy_port == 0 then Action.direct else Action.proxy

-- What the rules say of the process; `none` where the code goes on to the target process.
unfoldable pub by_rules : Settings → List ℕ → Option Action
unfolding short_name match_rules
by_rules c path = elim c.rules [
  | none ↦ none
  | some rules ↦ elim (match_rules rules (short_name path) path) [
    | RuleAction.block ↦ some Action.block
    | RuleAction.proxy ↦ some (proxied c)
    | RuleAction.direct ↦ none
  ]
]

-- Whether the process descends from the target process.
unfoldable pub in_tree : Os → ℕ → ℕ → Bool
unfolding descends
in_tree os target pid =
    not (target == 0)
    && (elim os.snapshot [ none ↦ false | some ps ↦ descends max_depth ps target pid ])

-- The action, the process and the path it reports, the new target process and the new cache.
pub record Verdict : Type 0 where
  pub action : Action
  pub pid : ℕ
  pub path : List ℕ
  pub target_pid : ℕ
  pub pid_cache : List PidCacheEntry

-- The part of `CheckProcessRule` after the path of the process is known.
unfoldable pub judge : Settings → Os → ℕ → ℕ → List ℕ → Action × ℕ
unfolding by_rules in_tree proxied
judge c os target pid path = elim (by_rules c path) [
  | some action ↦ (action, target)
  | none ↦
      if os.same_text path c.target_path
      then (proxied c, pid)
      else if in_tree os target pid
      then (proxied c, target)
      else (Action.direct, target)
]

-- The target process after a check that found no process.
unfoldable pub sought : Settings → Os → ℕ → ℕ
unfolding find_target_pid is_empty
sought c os target =
    if target == 0 && not (is_empty c.target_path) then find_target_pid os c.target_path else target

unfoldable pub check_process_rule : Settings → Os → ℕ → List PidCacheEntry → ℕ → Verdict
unfolding find_pid_by_source_port sought judge
check_process_rule c os target cache port =
    let found = find_pid_by_source_port cache os port in
    let nothing : Verdict = record {
      action = Action.direct;
      pid = 0;
      path = [];
      target_pid = target;
      pid_cache = found.1;
    } in
    if found.0 == 0
    then record nothing { target_pid = sought c os target }
    else if found.0 == os.own_id
    then nothing
    else elim (os.image_path found.0) [
      | none ↦ nothing
      | some path ↦
          let j = judge c os target found.0 path in
          record { action = j.0; pid = found.0; path = path; target_pid = j.1; pid_cache = found.1 }
    ]
