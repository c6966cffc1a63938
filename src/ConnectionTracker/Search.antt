-- ===== src/ConnectionTracker/Search.antt =====
-- ConnectionTracker.h: what Search and FilterByProcess find, and what the callback is told.
use mathlib.Core.Bool.{false≢true}
use tcp_redirector.ConnectionTracker.Records.{IsDistinct}
use tcp_redirector.ConnectionTracker.{
  ConnectionRecord, ConnectionTracker, Connections, lookup, delete, build_snapshot,
  remove_connection, match_field, matches, search, filter_by_process, notify,
}
use tcp_redirector.Prelude.{
  ℕ, ◌≡◌, ◌⊎◌, ◌↔◌, ◌||◌, Bool, true, false, List, [], ◌∷◌, none, some, map, keep, contains, Occurs,
  contains-Occurs, Occurs-contains, ◌==◌, ==_iff, arith, refl, inl, inr, Bool-cases, sym, ◌∙◌, ap,
}
use tcp_redirector.Relay.Replies.{to_string}

-- A record stands in a list.
unfoldable pub IsIn : ConnectionRecord → List ConnectionRecord → Type 0
IsIn r [] = ⊥
IsIn r (x ∷ xs) = (r ≡ x) ⊎ IsIn r xs

keep_iff :
    (p : ConnectionRecord → Bool) (r : ConnectionRecord) (xs : List ConnectionRecord)
    → IsIn r (keep p xs) ↔ (IsIn r xs × (p r ≡ true))
unfolding IsIn
keep_iff p r [] = (λ h. absurd h, λ h. absurd h.0)
keep_iff p r (x ∷ xs) =
    let (to, from) = keep_iff p r xs in
    elim (Bool-cases (p x)) [
      | inl e ↦
          rw (e, keep)
            (
              λ h. elim h [ inl q ↦ (inl q, ap p q ∙ e) | inr q ↦ (inr (to q).0, (to q).1) ],
              λ h. elim h.0 [ inl q ↦ inl q | inr q ↦ inr (from (q, h.1)) ],
            )
      | inr e ↦
          rw (e, keep)
            (
              λ h. (inr (to h).0, (to h).1),
              λ h. elim h.0 [
                | inl q ↦ absurd (false≢true (sym e ∙ sym (ap p q) ∙ h.1))
                | inr q ↦ from (q, h.1)
              ],
            )
    ]

-- What is shown is what some key stands for.
snapshot-lookup :
    (r : ConnectionRecord) (m : Connections)
    → IsIn r (build_snapshot m)
    → IsDistinct m
    → (key : ℕ) × (lookup key m ≡ some r)
unfolding IsIn build_snapshot lookup
snapshot-lookup r [] h d = absurd h
snapshot-lookup r ((i, x) ∷ m) (inl q) d = (i, ground (arith, q))
snapshot-lookup r ((i, x) ∷ m) (inr q) d =
    let (key, f) = snapshot-lookup r m q d.1 in (key, ground (arith, f, d.0))

lookup-snapshot :
    (r : ConnectionRecord) (key : ℕ) (m : Connections)
    → lookup key m ≡ some r
    → IsIn r (build_snapshot m)
unfolding IsIn build_snapshot lookup
lookup-snapshot r key [] f = cc
lookup-snapshot r key ((i, x) ∷ m) f = elim (Bool-cases (i == key)) [
  | inl e ↦ inl (ground arith)
  | inr e ↦ inr (lookup-snapshot r key m (ground arith))
]

-- A query stands in a text, whatever the case of either.
abbrev pub IsFound : (ℕ → ℕ) → List ℕ → List ℕ → Type 0
IsFound lower query text = Occurs (map lower query) (map lower text)

-- What Search looks for.
abbrev pub IsRelevant : (ℕ → ℕ) → List ℕ → ConnectionRecord → Type 0
IsRelevant lower query r =
    IsFound lower query r.process_name
    ⊎ (IsFound lower query r.destination_host ⊎ IsFound lower query (to_string r.pid))

or_iff : (a b c : Bool) → ((a || b || c) ≡ true) ↔ ((a ≡ true) ⊎ ((b ≡ true) ⊎ (c ≡ true)))
or_iff true b c = (λ e. inl refl, λ e. refl)
or_iff false true c = (λ e. inr (inl refl), λ e. refl)
or_iff false false true = (λ e. inr (inr refl), λ e. refl)
or_iff false false false = (
  λ e. absurd (false≢true e),
  λ o. elim o [ inl e ↦ e | inr q ↦ elim q [ inl e ↦ e | inr e ↦ e ] ],
)

matches_iff :
    (lower : ℕ → ℕ) (query : List ℕ) (r : ConnectionRecord)
    → (matches lower (map lower query) r ≡ true) ↔ IsRelevant lower query r
unfolding matches match_field
matches_iff lower query r =
    let q = map lower query in
    let name = map lower r.process_name in
    let host = map lower r.destination_host in
    let pid = map lower (to_string r.pid) in
    let (to, from) = or_iff (contains q name) (contains q host) (contains q pid) in
    (
      λ h. elim (to h) [
        | inl e ↦ inl (contains-Occurs q name e)
        | inr o ↦ elim o [
          | inl e ↦ inr (inl (contains-Occurs q host e))
          | inr e ↦ inr (inr (contains-Occurs q pid e))
        ]
      ],
      λ h. from (elim h [
        | inl e ↦ inl (Occurs-contains q name e)
        | inr o ↦ elim o [
          | inl e ↦ inr (inl (Occurs-contains q host e))
          | inr e ↦ inr (inr (Occurs-contains q pid e))
        ]
      ]),
    )

-- In a tracker with distinct keys, Search with a query that is not empty finds exactly the records that some
-- key stands for and in whose process name, host or process identifier the query occurs, both in lower case;
-- `lower` is what towlower does to a unit.
pub search_iff :
    (lower : ℕ → ℕ) (c : ℕ) (cs : List ℕ) (t : ConnectionTracker) (r : ConnectionRecord)
    → IsDistinct t.connections
    → IsIn r (search lower (c ∷ cs) t)
      ↔ (((key : ℕ) × (lookup key t.connections ≡ some r)) × IsRelevant lower (c ∷ cs) r)
unfolding search
search_iff lower c cs t r d =
    let query = c ∷ cs in
    let (to, from) = keep_iff (matches lower (map lower query)) r (build_snapshot t.connections) in
    let (relevant, matching) = matches_iff lower query r in
    (
      λ h. (snapshot-lookup r t.connections (to h).0 d, relevant (to h).1),
      λ h. from (lookup-snapshot r h.0.0 t.connections h.0.1, matching h.1),
    )

-- In a tracker with distinct keys, FilterByProcess finds exactly the records that some key stands for and
-- that have the process identifier.
pub filter_by_process_iff :
    (pid : ℕ) (t : ConnectionTracker) (r : ConnectionRecord)
    → IsDistinct t.connections
    → IsIn r (filter_by_process pid t)
      ↔ (((key : ℕ) × (lookup key t.connections ≡ some r)) × (r.pid ≡ pid))
unfolding filter_by_process
filter_by_process_iff pid t r d =
    let (to, from) = keep_iff (λ x. x.pid == pid) r (build_snapshot t.connections) in
    let (same, test) = ==_iff r.pid pid in
    (
      λ h. (snapshot-lookup r t.connections (to h).0 d, same (to h).1),
      λ h. from (lookup-snapshot r h.0.0 t.connections h.0.1, test h.1),
    )

notify_iff :
    (m : Connections) (t : ConnectionTracker)
    → t.has_callback ≡ true
    → t.connections ≡ m
    → (notify t ≡ none) ↔ (m ≡ [])
unfolding notify build_snapshot
notify_iff [] t e f = (λ h. refl, λ h. simp (e, f, notify) refl)
notify_iff ((i, r) ∷ m) t e f =
    let told : notify t ≡ some (r ∷ build_snapshot m) = simp (e, f, notify) refl in
    (λ h. cc, λ h. cc)

-- After a removal the callback is called, where one is set, exactly if a record is left: it does not learn
-- that the last connection is gone.
pub remove_connection-notify :
    (key : ℕ) (t : ConnectionTracker)
    → t.has_callback ≡ true
    → ((remove_connection key t).1 ≡ none) ↔ ((remove_connection key t).0.connections ≡ [])
unfolding remove_connection
remove_connection-notify key t e =
    notify_iff (delete key t.connections) (remove_connection key t).0 e refl
