-- ===== src/ConnectionTable/History.antt =====
-- ConnectionTable.h: any calls of the methods that change the table, against a map from ports to lists of entries.
use mathlib.Core.Path.{subst}
use tcp_redirector.Prelude.{
  ℕ, suc, ◌+◌, ◌≤◌, ◌<◌, ◌≡◌, refl, ap, sym, ◌∙◌, List, [], ◌∷◌, Option, none, some, length, All,
  inl, inr, ◌==◌, get_or-replicate, ==_iff, ==_refl, if◌then◌else◌, arith, Option-cases, Bool-cases,
  u32_mod,
}
use tcp_redirector.ConnectionTable.{
  ConnectionEntry, ConnectionTable, empty, clear, hash, chain, set_chain, add, remove,
  set_process_info, add_bytes, with_process, with_pid, with_bytes, get, get_proxy_config_id,
  is_tracked, get_info, change_live, find_live, remove_port, update_key,
}
use tcp_redirector.ConnectionTable.Calls.{
  Call, add_call, remove_call, set_process_call, add_bytes_call, clear_call, Fits, expected,
  expected_all, step, run,
}
use tcp_redirector.ConnectionTable.Chains.{stored, rest}
use tcp_redirector.ConnectionTable.Placement.{IsValid, empty-IsValid}
use tcp_redirector.ConnectionTable.Upkeep.{
  add-IsValid, remove-IsValid, add_bytes-IsValid, set_process_info-IsValid,
}
use tcp_redirector.ConnectionTable.View.{
  newest, destination, config_of, exists, info_of, change_newest, view, Only, change-Only, add-Only,
  remove-Only, add_bytes-Only,
}
use tcp_redirector.ConnectionTable.Lookups.{lookups-newest, set_process_info-Only}

module _ (size : ℕ) where
  Only-expected :
      (t u : ConnectionTable) (p : ℕ) (f : List ConnectionEntry → List ConnectionEntry)
      → Only size t u p (f (view size t p))
      → (q : ℕ) → view size u q ≡ (if q == p then f (view size t q) else view size t q)
  Only-expected t u p f (own, others) q = elim (Bool-cases (q == p)) [
    | inl e ↦
        let same : q ≡ p = (==_iff q p).0 e in
        rw e (subst (λ r. view size u r ≡ f (view size t r)) (sym same) own)
    | inr e ↦ rw e (elim (others q) [ inl same ↦ absurd (ground (arith, ==_refl p)) | inr h ↦ h ])
  ]

  view-clear : (t : ConnectionTable) (q : ℕ) → view size (clear size t) q ≡ []
  view-clear t q = rw (get_or-replicate {A = List ConnectionEntry} size (hash size q) []) refl

  -- What a call leads to.
  record Stepped (c : Call) (t : ConnectionTable) : Type 0 where
    after : ConnectionTable
    returns : step size c t ≡ some after
    valid : IsValid size after
    bounded : after.tracked_count ≤ suc t.tracked_count
    agrees : (q : ℕ) → view size after q ≡ expected c q (view size t q)

  add_bounded :
      (t : ConnectionTable) (port from ip dest config : ℕ)
      → (add size t port from ip dest config).tracked_count ≤ suc t.tracked_count
  unfolding add
  add_bounded t port from ip dest config =
      elim (Option-cases (update_key port from ip dest config (chain size t port))) [
        | inl e ↦ rw (e, add) (omega arith)
        | inr (es, e) ↦ rw (e, add) (omega arith)
      ]

  remove_bounded :
      (t : ConnectionTable) (port : ℕ)
      → t.tracked_count < u32_mod
      → (remove size t port).tracked_count ≤ suc t.tracked_count
  unfolding remove
  remove_bounded t port b = elim (Option-cases (remove_port port (chain size t port))) [
    | inl e ↦ rw (e, remove) (omega arith)
    | inr (es, e) ↦ rw (e, remove) (ground arith)
  ]

  set_process_info_bounded :
      (t u : ConnectionTable) (port pid : ℕ) (path : List ℕ)
      → set_process_info size t port pid (some path) ≡ some u
      → u.tracked_count ≤ suc t.tracked_count
  unfolding set_process_info
  set_process_info_bounded t u port pid path h =
      elim (Option-cases (find_live port (chain size t port))) [
        | inl e ↦ ground arith
        | inr (x, e) ↦ ground arith
      ]

  add-Stepped :
      (t : ConnectionTable) (port from ip dest config : ℕ)
      → 0 < size
      → IsValid size t
      → suc t.tracked_count < u32_mod
      → Stepped (add_call port from ip dest config) t
  unfolding step expected
  add-Stepped t port from ip dest config pos v room = record {
    after = add size t port from ip dest config;
    returns = refl;
    valid = add-IsValid size pos t port from ip dest config v room;
    bounded = add_bounded t port from ip dest config;
    agrees =
        Only-expected t (add size t port from ip dest config) port (stored port from ip dest config)
          (add-Only size t port from ip dest config pos v);
  }

  remove-Stepped :
      (t : ConnectionTable) (port : ℕ) → 0 < size → IsValid size t → Stepped (remove_call port) t
  unfolding step expected
  remove-Stepped t port pos v = record {
    after = remove size t port;
    returns = refl;
    valid = remove-IsValid size pos t port v;
    bounded = remove_bounded t port v.bounded;
    agrees = Only-expected t (remove size t port) port rest (remove-Only size t port pos v);
  }

  set_process-Stepped :
      (t : ConnectionTable) (port pid : ℕ) (path : Option (List ℕ))
      → 0 < size
      → IsValid size t
      → Fits (set_process_call port pid path)
      → Stepped (set_process_call port pid path) t
  unfolding step expected Fits set_process_info
  set_process-Stepped t port pid none pos v fits =
      let u = set_chain size t port (change_live port (with_pid pid) (chain size t port)) in
      let back : set_process_info size t port pid none ≡ some u = refl in
      record {
        after = u;
        returns = back;
        valid = set_process_info-IsValid size pos t u port pid none v back;
        bounded = omega arith;
        agrees =
            Only-expected t u port (change_newest (with_pid pid))
              (change-Only size t port (with_pid pid) (λ e. refl) pos v);
      }
  set_process-Stepped t port pid (some path) pos v fits =
      let (u, back, only) = set_process_info-Only size t port pid path pos v fits in
      record {
        after = u;
        returns = back;
        valid = set_process_info-IsValid size pos t u port pid (some path) v back;
        bounded = set_process_info_bounded t u port pid path back;
        agrees = Only-expected t u port (change_newest (with_process pid path)) only;
      }

  call-Stepped :
      (c : Call) (t : ConnectionTable)
      → 0 < size
      → IsValid size t
      → suc t.tracked_count < u32_mod
      → Fits c
      → Stepped c t
  unfolding step expected add_bytes empty
  call-Stepped (add_call port from ip dest config) t pos v room fits =
      add-Stepped t port from ip dest config pos v room
  call-Stepped (remove_call port) t pos v room fits = remove-Stepped t port pos v
  call-Stepped (set_process_call port pid path) t pos v room fits =
      set_process-Stepped t port pid path pos v fits
  call-Stepped (add_bytes_call port up down) t pos v room fits = record {
    after = add_bytes size t port up down;
    returns = refl;
    valid = add_bytes-IsValid size pos t port up down v;
    bounded = omega arith;
    agrees =
        Only-expected t (add_bytes size t port up down) port (change_newest (with_bytes up down))
          (add_bytes-Only size t port up down pos v);
  }
  call-Stepped clear_call t pos v room fits = record {
    after = clear size t;
    returns = refl;
    valid = empty-IsValid size;
    bounded = omega arith;
    agrees = view-clear t;
  }

  -- What the lookups give of a port with these entries.
  unfoldable pub Answers : ConnectionTable → ℕ → List ConnectionEntry → Type 0
  Answers u q es =
      (get size u q ≡ destination (newest es))
      × (get_proxy_config_id size u q ≡ config_of (newest es))
      × (is_tracked size u q ≡ exists (newest es))
      × (get_info size u q ≡ some (info_of (newest es)))

  run-from :
      (cs : List Call) (t : ConnectionTable)
      → 0 < size
      → IsValid size t
      → t.tracked_count + length cs < u32_mod
      → All Fits cs
      → (u : ConnectionTable) × (run size cs t ≡ some u)
        × (IsValid size u)
        × ((q : ℕ) → view size u q ≡ expected_all cs q (view size t q))
  unfolding run expected_all
  run-from [] t pos v room fits = (t, refl, v, λ q. refl)
  run-from (c ∷ cs) t pos v room fits =
      let s = call-Stepped c t pos v (omega arith) fits.0 in
      let (u, back, valid, agrees) =
        run-from cs s.after pos s.valid (omega (arith, s.bounded)) fits.1 in
      (u, rw (s.returns, run) back, valid, λ q. agrees q ∙ ap (expected_all cs q) (s.agrees q))

  -- On a table with at least one bucket, after fewer than 2^32 calls of the methods that change it, whose paths
  -- fit the array of an entry: the calls return, the table is valid, every port has the entries that the calls
  -- say, and the lookups give what the newest of them has.
  pub run-Answers :
      (cs : List Call)
      → 0 < size
      → length cs < u32_mod
      → All Fits cs
      → (u : ConnectionTable) × (run size cs (empty size) ≡ some u)
        × (IsValid size u)
        × ((q : ℕ) → (view size u q ≡ expected_all cs q []) × Answers u q (expected_all cs q []))
  unfolding empty Answers
  run-Answers cs pos room fits =
      let (u, back, valid, agrees) =
        run-from cs (empty size) pos (empty-IsValid size) (omega arith) fits in
      let same : (q : ℕ) → view size u q ≡ expected_all cs q [] =
        λ q. agrees q ∙ ap (expected_all cs q) (view-clear (empty size) q) in
      (
        u,
        back,
        valid,
        λ q. (same q, subst (λ es. Answers u q es) (same q) (lookups-newest size u q pos valid)),
      )
