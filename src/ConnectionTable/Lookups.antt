-- ===== src/ConnectionTable/Lookups.antt =====
-- ConnectionTable.h: what the lookups give, in terms of the view.
use tcp_redirector.Prelude.{
  ℕ, suc, ◌<◌, ◌≡◌, ◌≢◌, ◌⊎◌, refl, sym, ◌∙◌, false, List, [], ◌∷◌, none, some, length, All, inl,
  inr, ==_refl, lt→ltb, arith, Option-cases, Bool-cases, u32_mod,
}
use tcp_redirector.ConnectionTable.{
  ConnectionEntry, ConnectionTable, is_live, path_size, wcscpy_s, change_live, find_live, hash,
  chain, set_chain, add, remove, get, set_process_info, with_process, get_info, is_tracked,
  get_proxy_config_id,
}
use tcp_redirector.ConnectionTable.Chains.{of_port, has_address, stored, rest}
use tcp_redirector.ConnectionTable.Placement.{IsValid, Good}
use tcp_redirector.ConnectionTable.Upkeep.{add-IsValid, remove-IsValid, chain-Good}
use tcp_redirector.ConnectionTable.View.{
  newest, destination, config_of, exists, info_of, change_newest, view, Only, change-Only, add-Only,
  remove-Only,
}

module _ (size : ℕ) where
  find_live-newest :
      (p i : ℕ) (es : List ConnectionEntry)
      → All (Good size i) es
      → find_live p es ≡ newest (of_port p es)
  unfolding find_live
  find_live-newest p i [] g = refl
  find_live-newest p i (e ∷ es) g = ground (arith, find_live-newest p i es g.1, g.0.1)

  find_live-fits :
      (p i : ℕ) (es : List ConnectionEntry)
      → All (Good size i) es
      → (e : ConnectionEntry) → find_live p es ≡ some e
      → wcscpy_s e.proc_path ≡ some e.proc_path
  unfolding find_live
  find_live-fits p i [] g x h = cc
  find_live-fits p i (e ∷ es) g x h = elim (Bool-cases (is_live p e)) [
    | inl l ↦
        let same : e ≡ x = ground arith in
        rw (sym same, lt→ltb (length e.proc_path) path_size g.0.2) refl
    | inr l ↦ find_live-fits p i es g.1 x (ground arith)
  ]

  -- In a valid table with at least one bucket, `Get`, `GetProxyConfigId`, `IsTracked` and `GetInfo`
  -- give what the newest entry of the port has, or that there is none, and `GetInfo` returns: the
  -- path fits the array it is copied to.
  pub lookups-newest :
      (t : ConnectionTable) (p : ℕ)
      → 0 < size
      → IsValid size t
      → (get size t p ≡ destination (newest (view size t p)))
        × (get_proxy_config_id size t p ≡ config_of (newest (view size t p)))
        × (is_tracked size t p ≡ exists (newest (view size t p)))
        × (get_info size t p ≡ some (info_of (newest (view size t p))))
  unfolding get get_proxy_config_id is_tracked get_info
  lookups-newest t p pos v =
      let es = chain size t p in
      let good = chain-Good size pos t p v in
      let same = find_live-newest p (hash size p) es good in
      elim (Option-cases (find_live p es)) [
        | inl e ↦
            let n : newest (view size t p) ≡ none = sym same ∙ e in
            rw (e, n, get, get_proxy_config_id, is_tracked, get_info) (refl, refl, refl, refl)
        | inr (x, e) ↦
            let n : newest (view size t p) ≡ some x = sym same ∙ e in
            let w = find_live-fits p (hash size p) es good x e in
            rw (e, n, get, get_proxy_config_id, is_tracked, get_info) (refl, refl, refl, rw w refl)
      ]

  change_newest-none :
      (f : ConnectionEntry → ConnectionEntry) (es : List ConnectionEntry)
      → newest es ≡ none
      → es ≡ change_newest f es
  change_newest-none f [] h = refl
  change_newest-none f (e ∷ es) h = cc

  -- In a valid table with at least one bucket, `SetProcessInfo` with a path that fits its array
  -- returns; it sets the process and the path of the newest entry of the port, if any, and changes
  -- nothing else of what the ports have.
  pub set_process_info-Only :
      (t : ConnectionTable) (p pid : ℕ) (path : List ℕ)
      → 0 < size
      → IsValid size t
      → length path < path_size
      → (u : ConnectionTable) × (set_process_info size t p pid (some path) ≡ some u)
        × Only size t u p (change_newest (with_process pid path) (view size t p))
  unfolding set_process_info
  set_process_info-Only t p pid path pos v fits =
      let es = chain size t p in
      let same = find_live-newest p (hash size p) es (chain-Good size pos t p v) in
      elim (Option-cases (find_live p es)) [
        | inl e ↦ (
          t,
          rw (e, set_process_info) refl,
          (
            change_newest-none (with_process pid path) (view size t p) (sym same ∙ e),
            λ q. inr refl,
          ),
        )
        | inr (x, e) ↦ (
          set_chain size t p (change_live p (with_process pid path) es),
          rw (e, set_process_info) (rw (lt→ltb (length path) path_size fits) refl),
          change-Only size t p (with_process pid path) (λ e. refl) pos v,
        )
      ]

-- No entry has the address, or the newest one has it.
abbrev pub IsFront : ℕ → List ConnectionEntry → Type 0
IsFront ip es =
    All (λ e. e.orig_dest_ip ≢ ip) es
    ⊎ ((e : ConnectionEntry) × (newest es ≡ some e) × (e.orig_dest_ip ≡ ip))

no_address :
    (ip : ℕ) (es : List ConnectionEntry)
    → All (λ e. e.orig_dest_ip ≢ ip) es
    → has_address ip es ≡ false
no_address ip [] h = refl
no_address ip (e ∷ es) h = ground (arith, no_address ip es h.1, h.0)

-- The destination that the entries of a port give after `Add`.
stored-newest :
    (p src ip dest config : ℕ) (es : List ConnectionEntry)
    → IsFront ip es
    → destination (newest (stored p src ip dest config es)) ≡ some (ip, dest)
stored-newest p src ip dest config es (inl h) = rw (no_address ip es h) refl
stored-newest p src ip dest config [] (inr (e, front, same)) = absurd (cc front)
stored-newest p src ip dest config (x ∷ es) (inr (e, front, same)) =
    let own : x.orig_dest_ip ≡ ip = ground (arith, front, same) in ground (arith, ==_refl ip, own)

-- In a valid table with at least one bucket and a count below its maximum: after `Add` of a port,
-- whose newest entry has that destination address or none of whose entries has it, `Get` returns the destination
-- that was added.
pub get-add :
    (size : ℕ) (t : ConnectionTable) (p src ip dest config : ℕ)
    → 0 < size
    → IsValid size t
    → suc t.tracked_count < u32_mod
    → IsFront ip (view size t p)
    → get size (add size t p src ip dest config) p ≡ some (ip, dest)
get-add size t p src ip dest config pos v room h =
    let v' = add-IsValid size pos t p src ip dest config v room in
    let own = (add-Only size t p src ip dest config pos v).0 in
    (lookups-newest size (add size t p src ip dest config) p pos v').0
    ∙ rw own (stored-newest p src ip dest config (view size t p) h)

-- In a valid table with at least one bucket, after `Remove` of a port that had at most one entry
-- the port is not tracked.
pub is_tracked-remove :
    (size : ℕ) (t : ConnectionTable) (p : ℕ)
    → 0 < size
    → IsValid size t
    → rest (view size t p) ≡ []
    → is_tracked size (remove size t p) p ≡ false
is_tracked-remove size t p pos v h =
    let v' = remove-IsValid size pos t p v in
    let own = (remove-Only size t p pos v).0 in
    (lookups-newest size (remove size t p) p pos v').2 ∙ rw (own ∙ h) refl
