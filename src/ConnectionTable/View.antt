-- ===== src/ConnectionTable/View.antt =====
-- ConnectionTable.h: the table keeps, for every port, a list of entries, newest first, and nothing else.
use mathlib.Core.Path.{subst}
use mathlib.Core.Bool.{false≢true}
use tcp_redirector.Prelude.{
  ◌⊎◌, ℕ, ◌<◌, ◌≡◌, ◌≢◌, refl, ap, sym, ◌∙◌, Bool, true, false, List, [], ◌∷◌, Option, none, some,
  get_or, set, get_or-set, All, inl, inr, ◌==◌, ==_iff, ==_refl, if◌then◌else◌, arith, Option-cases,
  Bool-cases,
}
use tcp_redirector.ConnectionTable.{
  ConnectionEntry, ConnectionTable, ConnectionInfo, update_key, change_live, remove_port, hash,
  chain, set_chain, add, remove, add_bytes, with_bytes,
}
use tcp_redirector.ConnectionTable.Chains.{
  of_port, put, put-stored, stored, put-other, removed, rest, removed-own, removed-other,
  change_live-other,
}
use tcp_redirector.ConnectionTable.Placement.{IsValid, Good}
use tcp_redirector.ConnectionTable.Upkeep.{
  hash-lt, chain-Good, put-none, put-some, removed-some, removed-none,
}

-- The first entry of a list.
abbrev pub newest : List ConnectionEntry → Option ConnectionEntry
newest [] = none
newest (e ∷ es) = some e

-- What `Get` gives of an entry.
abbrev pub destination : Option ConnectionEntry → Option (ℕ × ℕ)
destination none = none
destination (some e) = some (e.orig_dest_ip, e.orig_dest_port)

-- What the other lookups give of it.
abbrev pub config_of : Option ConnectionEntry → ℕ
config_of none = 0
config_of (some e) = e.proxy_config_id

abbrev pub exists : Option ConnectionEntry → Bool
exists none = false
exists (some e) = true

abbrev pub info_of : Option ConnectionEntry → Option ConnectionInfo
info_of none = none
info_of (some e) = some (record {
  pid = e.pid;
  proc_path = e.proc_path;
  bytes_up = e.bytes_up;
  bytes_down = e.bytes_down;
})

-- The first entry, changed.
abbrev pub change_newest :
    (ConnectionEntry → ConnectionEntry) → List ConnectionEntry → List ConnectionEntry
change_newest f [] = []
change_newest f (e ∷ es) = f e ∷ es

module _ (size : ℕ) where
  -- What the table holds of a port.
  abbrev pub view : ConnectionTable → ℕ → List ConnectionEntry
  view t q = of_port q (chain size t q)

  -- In the second table the port has these entries, and any port is this one or has those of the first table.
  abbrev pub Only : ConnectionTable → ConnectionTable → ℕ → List ConnectionEntry → Type 0
  Only t u p new = (view u p ≡ new) × ((q : ℕ) → (q ≡ p) ⊎ (view u q ≡ view t q))

  -- A chain changed in the entries of its port only.
  set_chain-Only :
      (t : ConnectionTable) (p : ℕ) (es : List ConnectionEntry)
      → 0 < size
      → IsValid size t
      → ((q : ℕ) → q ≢ p → of_port q es ≡ of_port q (chain size t p))
      → Only t (set_chain size t p es) p (of_port p es)
  set_chain-Only t p es pos v other = (
    rw (at p) (rw (==_refl (hash size p)) refl),
    λ q. elim (Bool-cases (q == p)) [
      | inl e ↦ inl ((==_iff q p).0 e)
      | inr e ↦ inr (apart q (λ d. false≢true (sym e ∙ (==_iff q p).1 d)))
    ],
  )
    where
      at :
          (q : ℕ)
          → get_or (set t.table (hash size p) es) (hash size q) []
            ≡ (if hash size p == hash size q then es else get_or t.table (hash size q) [])
      at q = get_or-set t.table (hash size p) (hash size q) es [] (hash-lt size pos t p v)

      apart : (q : ℕ) → q ≢ p → view (set_chain size t p es) q ≡ view t q
      apart q d = elim (Bool-cases (hash size p == hash size q)) [
        | inl e ↦
            let same : hash size p ≡ hash size q = (==_iff (hash size p) (hash size q)).0 e in
            rw (at q, e) (other q d ∙ ap (λ (h : ℕ). of_port q (get_or t.table h [])) same)
        | inr e ↦ rw (at q, e) refl
      ]

  -- In a valid table with at least one bucket, `Add` changes the entries of its port only: the
  -- first one with the same destination address is updated in place, and if there is none a new one
  -- stands before the others.
  pub add-Only :
      (t : ConnectionTable) (p src ip dest config : ℕ)
      → 0 < size
      → IsValid size t
      → Only t (add size t p src ip dest config) p (stored p src ip dest config (view t p))
  unfolding add
  add-Only t p src ip dest config pos v =
      let es = chain size t p in
      let x =
        set_chain-Only t p (put p src ip dest config es) pos v
          (λ q d. put-other p src ip dest config q es d) in
      let goal : List ConnectionEntry → Type 0 =
        λ fs. Only t (set_chain size t p fs) p (stored p src ip dest config (view t p)) in
      let y : goal (put p src ip dest config es) =
        (x.0 ∙ put-stored p src ip dest config es, x.1) in
      elim (Option-cases (update_key p src ip dest config es)) [
        | inl e ↦ rw (e, add) (subst goal (put-none p src ip dest config es e) y)
        | inr (gs, e) ↦ rw (e, add) (subst goal (put-some p src ip dest config es gs e) y)
      ]

  -- In a valid table with at least one bucket, `Remove` drops the newest entry of its port, if any,
  -- and changes those of no other port.
  pub remove-Only :
      (t : ConnectionTable) (p : ℕ)
      → 0 < size
      → IsValid size t
      → Only t (remove size t p) p (rest (view t p))
  unfolding remove
  remove-Only t p pos v =
      let es = chain size t p in
      let own : of_port p (removed p es) ≡ rest (view t p) = removed-own p es in
      let x = set_chain-Only t p (removed p es) pos v (λ q d. removed-other p q es d) in
      let y : Only t (set_chain size t p (removed p es)) p (rest (view t p)) = (x.0 ∙ own, x.1) in
      elim (Option-cases (remove_port p es)) [
        | inl e ↦ rw (e, remove) (ap (of_port p) (sym (removed-none p es e)) ∙ own, λ q. inr refl)
        | inr (gs, e) ↦
            rw (e, remove)
              (subst (λ fs. Only t (set_chain size t p fs) p (rest (view t p)))
                (removed-some p es gs e) y)
      ]

  -- A change in place, of a table whose entries are all tracked, is one of the newest entry of the port.
  change_live-newest :
      (p i : ℕ) (f : ConnectionEntry → ConnectionEntry)
      → ((e : ConnectionEntry) → (f e).src_port ≡ e.src_port)
      → (es : List ConnectionEntry) → All (Good size i) es
      → of_port p (change_live p f es) ≡ change_newest f (of_port p es)
  unfolding change_live
  change_live-newest p i f same [] g = refl
  change_live-newest p i f same (e ∷ es) g =
      ground (arith, change_live-newest p i f same es g.1, g.0.1, same e)

  pub change-Only :
      (t : ConnectionTable) (p : ℕ) (f : ConnectionEntry → ConnectionEntry)
      → ((e : ConnectionEntry) → (f e).src_port ≡ e.src_port)
      → 0 < size
      → IsValid size t
      → Only t
          (set_chain size t p (change_live p f (chain size t p)))
          p
          (change_newest f (view t p))
  change-Only t p f same pos v =
      let es = chain size t p in
      let x =
        set_chain-Only t p (change_live p f es) pos v (λ q d. change_live-other p f same q es d) in
      (x.0 ∙ change_live-newest p (hash size p) f same es (chain-Good size pos t p v), x.1)

  -- In a valid table with at least one bucket, `AddBytes` adds to the counters of the newest entry
  -- of its port, if any, and changes nothing else of what the ports have.
  pub add_bytes-Only :
      (t : ConnectionTable) (p up down : ℕ)
      → 0 < size
      → IsValid size t
      → Only t (add_bytes size t p up down) p (change_newest (with_bytes up down) (view t p))
  unfolding add_bytes
  add_bytes-Only t p up down pos v = change-Only t p (with_bytes up down) (λ e. refl) pos v
