-- ===== src/ConnectionTable/Chains.antt =====
-- ConnectionTable.h: what the loops over a chain do to the entries of one port.
use tcp_redirector.Prelude.{
  Bool, true, false, ◌||◌, ◌==◌, ◌∙◌, if◌then◌else◌, ℕ, ◌≡◌, ◌≢◌, refl, List, [], ◌∷◌, Option, none,
  some, keep, ==_iff, arith,
}
use tcp_redirector.ConnectionTable.{
  ConnectionEntry, has_port, update_key, new_entry, find_live, change_live, remove_port,
}

-- The entries of a port, newest first.
abbrev pub of_port : ℕ → List ConnectionEntry → List ConnectionEntry
of_port q es = keep (has_port q) es

-- `Add` on a chain: an entry with the key is updated in place, else a new one stands first.
abbrev pub put : ℕ → ℕ → ℕ → ℕ → ℕ → List ConnectionEntry → List ConnectionEntry
put p from ip dest config es = elim (update_key p from ip dest config es) [
  | some fs ↦ fs
  | none ↦ new_entry p from ip dest config ∷ es
]

module _ (p from ip dest config : ℕ) where
  abbrev update : List ConnectionEntry → Option (List ConnectionEntry)
  update es = update_key p from ip dest config es

  pub put-other :
      (q : ℕ) (es : List ConnectionEntry)
      → q ≢ p
      → of_port q (put p from ip dest config es) ≡ of_port q es
  unfolding update_key
  put-other q [] d = ground arith
  put-other q (e ∷ es) d = ground (arith, put-other q es d)

  pub update-own :
      (es : List ConnectionEntry)
      → update (of_port p es) ≡ (elim (update es) [ none ↦ none | some fs ↦ some (of_port p fs) ])
  unfolding update_key
  update-own [] = refl
  update-own (e ∷ es) = ground (arith, update-own es)

  pub put-own :
      (es : List ConnectionEntry)
      → of_port p (put p from ip dest config es) ≡ put p from ip dest config (of_port p es)
  put-own es = ground (arith, update-own es)

-- Whether an entry has that destination address, and the entries with the first such one updated.
abbrev pub has_address : ℕ → List ConnectionEntry → Bool
has_address ip [] = false
has_address ip (e ∷ es) = e.orig_dest_ip == ip || has_address ip es

abbrev pub refreshed : ℕ → ℕ → ℕ → ℕ → List ConnectionEntry → List ConnectionEntry
refreshed from ip dest config [] = []
refreshed from ip dest config (e ∷ es) =
    if e.orig_dest_ip == ip
    then record e {
      src_ip = from;
      orig_dest_port = dest;
      proxy_config_id = config;
      is_tracked = true;
    }
      ∷ es
    else e ∷ refreshed from ip dest config es

-- The entries of a port after a connection of it was added.
abbrev pub stored : ℕ → ℕ → ℕ → ℕ → ℕ → List ConnectionEntry → List ConnectionEntry
stored p from ip dest config es =
    if has_address ip es
    then refreshed from ip dest config es
    else new_entry p from ip dest config ∷ es

module _ (p from ip dest config : ℕ) where
  update-of_port :
      (es : List ConnectionEntry)
      → update_key p from ip dest config (of_port p es) ≡ (
          if has_address ip (of_port p es)
          then some (refreshed from ip dest config (of_port p es))
          else none)
  unfolding update_key
  update-of_port [] = refl
  update-of_port (e ∷ es) = ground (arith, update-of_port es)

  pub put-stored :
      (es : List ConnectionEntry)
      → of_port p (put p from ip dest config es) ≡ stored p from ip dest config (of_port p es)
  put-stored es = put-own p from ip dest config es ∙ ground (arith, update-of_port es)

pub find_live-own :
    (p : ℕ) (es : List ConnectionEntry) → find_live p (of_port p es) ≡ find_live p es
unfolding find_live
find_live-own p [] = refl
find_live-own p (e ∷ es) = ground (arith, find_live-own p es)

module _ (p : ℕ) (f : ConnectionEntry → ConnectionEntry)
    (same : (e : ConnectionEntry) → (f e).src_port ≡ e.src_port) where
  pub change_live-own :
      (es : List ConnectionEntry) → of_port p (change_live p f es) ≡ change_live p f (of_port p es)
  unfolding change_live
  change_live-own [] = refl
  change_live-own (e ∷ es) = ground (arith, change_live-own es, same e)

  pub change_live-other :
      (q : ℕ) (es : List ConnectionEntry) → q ≢ p → of_port q (change_live p f es) ≡ of_port q es
  unfolding change_live
  change_live-other q [] d = refl
  change_live-other q (e ∷ es) d =
      ground (arith, change_live-other q es d, same e, ==_iff e.src_port q, ==_iff e.src_port p)

-- The chain after `Remove`.
abbrev pub removed : ℕ → List ConnectionEntry → List ConnectionEntry
removed p es = elim (remove_port p es) [ none ↦ es | some fs ↦ fs ]

-- A list without its head.
abbrev pub rest : List ConnectionEntry → List ConnectionEntry
rest [] = []
rest (e ∷ es) = es

pub removed-own :
    (p : ℕ) (es : List ConnectionEntry) → of_port p (removed p es) ≡ rest (of_port p es)
unfolding remove_port
removed-own p [] = refl
removed-own p (e ∷ es) = ground (arith, removed-own p es)

pub removed-other :
    (p q : ℕ) (es : List ConnectionEntry) → q ≢ p → of_port q (removed p es) ≡ of_port q es
unfolding remove_port
removed-other p q [] d = refl
removed-other p q (e ∷ es) d = ground (arith, removed-other p q es d)
