-- ===== src/ContextStore/Identity.antt =====
-- ContextStore.cpp: what an identifier stands for, over any history of calls.
use tcp_redirector.ContextStore.Histories.{
  IsValid, creations, next_id_lem, next_id_grows, step-IsValid,
}
use tcp_redirector.ContextStore.Entries.{find-erase, find-insert, find-cleanup_from}
use tcp_redirector.ContextStore.{
  ContextEntry, ContextStore, Call, create_call, get_call, close_call, cleanup_call, clear_call,
  History, is_expired, find, create, get, close, new_context, cleanup_expired, clear, step, run,
}
use tcp_redirector.Prelude.{
  ℕ, suc, ◌+◌, ◌<◌, ◌≤◌, ◌≡◌, Bool, true, false, not, List, [], ◌∷◌, none, some, ltb, leb, leb→le,
  ◌==◌, All, arith, u64_mod, refl, Option-cases, inl, inr,
}

-- A call makes no identifier known that was given out before.
step-unknown :
    (id : ℕ) (c : Call) (cs : List Call) (h : History)
    → h.store.next_id + creations (c ∷ cs) < u64_mod
    → IsValid h.store
    → id < h.store.next_id
    → find id h.store.contexts ≡ none
    → find id (step c h).store.contexts ≡ none
unfolding step create get close cleanup_expired clear find creations
step-unknown id (create_call now credentials context spn ttl) cs h l v k n = ground (
  arith,
  find-insert id h.store.next_id (new_context now credentials context spn ttl) h.store.contexts,
)
step-unknown id (get_call now i) cs h l v k n = ground (arith, find-erase id i h.store.contexts)
step-unknown id (close_call i) cs h l v k n = ground (arith, find-erase id i h.store.contexts)
step-unknown id (cleanup_call now) cs h l v k n =
    ground (arith, find-cleanup_from now id h.store.contexts v.distinct)
step-unknown id clear_call cs h l v k n = refl

run-unknown :
    (id : ℕ) (cs : List Call) (h : History)
    → h.store.next_id + creations cs < u64_mod
    → IsValid h.store
    → id < h.store.next_id
    → find id h.store.contexts ≡ none
    → find id (run cs h).store.contexts ≡ none
unfolding run
run-unknown id [] h l v k n = n
run-unknown id (c ∷ cs) h l v k n =
    let m = next_id_lem c cs h l in
    run-unknown id cs (step c h) (omega arith) (step-IsValid c cs h l v)
      (omega (arith, next_id_grows c cs h l)) (step-unknown id c cs h l v k n)

-- Whether a call leaves an identifier alone: it neither closes it nor clears the store, and if it looks at
-- what has expired, then not after a deadline.
unfoldable pub spares : ℕ → ℕ → Call → Bool
spares id deadline (create_call now credentials context spn ttl) = true
spares id deadline (get_call now i) = leb now deadline
spares id deadline (close_call i) = not (i == id)
spares id deadline (cleanup_call now) = leb now deadline
spares id deadline clear_call = false

is_expired_lem : (now : ℕ) (e : ContextEntry) → is_expired now e ≡ ltb (e.created_at + e.ttl) now
unfolding is_expired
is_expired_lem now e = refl

get-known :
    (id now i : ℕ) (e : ContextEntry) (s : ContextStore)
    → now ≤ e.created_at + e.ttl
    → find id s.contexts ≡ some e
    → find id (get now i s).0.contexts ≡ some e
unfolding get
get-known id now i e s l n = elim (Option-cases (find i s.contexts)) [
  | inl f ↦ simp (f, get) n
  | inr (x, f) ↦ simp (f, get) (ground (arith, find-erase id i s.contexts, is_expired_lem now e))
]

step-known :
    (id : ℕ) (e : ContextEntry) (c : Call) (cs : List Call) (h : History)
    → h.store.next_id + creations (c ∷ cs) < u64_mod
    → IsValid h.store
    → id < h.store.next_id
    → spares id (e.created_at + e.ttl) c ≡ true
    → find id h.store.contexts ≡ some e
    → find id (step c h).store.contexts ≡ some e
unfolding step create close cleanup_expired clear find spares is_expired
step-known id e (create_call now credentials context spn ttl) cs h l v k s n = ground (
  arith,
  find-insert id h.store.next_id (new_context now credentials context spn ttl) h.store.contexts,
)
step-known id e (get_call now i) cs h l v k s n =
    get-known id now i e h.store (leb→le now (e.created_at + e.ttl) s) n
step-known id e (close_call i) cs h l v k s n = ground (arith, find-erase id i h.store.contexts)
step-known id e (cleanup_call now) cs h l v k s n =
    ground (arith, find-cleanup_from now id h.store.contexts v.distinct)
step-known id e clear_call cs h l v k s n = cc

run-known :
    (id : ℕ) (e : ContextEntry) (cs : List Call) (h : History)
    → h.store.next_id + creations cs < u64_mod
    → IsValid h.store
    → id < h.store.next_id
    → All (λ c. spares id (e.created_at + e.ttl) c ≡ true) cs
    → find id h.store.contexts ≡ some e
    → find id (run cs h).store.contexts ≡ some e
unfolding run
run-known id e [] h l v k s n = n
run-known id e (c ∷ cs) h l v k s n =
    run-known id e cs (step c h) (omega (arith, next_id_lem c cs h l)) (step-IsValid c cs h l v)
      (omega (arith, next_id_grows c cs h l)) s.1 (step-known id e c cs h l v k s.0 n)

run-grows :
    (cs : List Call) (h : History)
    → h.store.next_id + creations cs < u64_mod
    → h.store.next_id ≤ (run cs h).store.next_id
unfolding run
run-grows [] h l = omega arith
run-grows (c ∷ cs) h l =
    omega
      (arith, next_id_grows c cs h l, run-grows cs (step c h) (omega (arith, next_id_lem c cs h l)))

closed : (id : ℕ) (s : ContextStore) → find id (close id s).0.contexts ≡ none
unfolding close
closed id s = elim (Option-cases (find id s.contexts)) [
  | inl f ↦ simp (f, close) refl
  | inr (x, f) ↦ simp (f, close) (ground (arith, find-erase id id s.contexts))
]

found :
    (id later : ℕ) (e : ContextEntry) (s : ContextStore)
    → later ≤ e.created_at + e.ttl
    → find id s.contexts ≡ some e
    → (get later id s).1 ≡ some e
unfolding get
found id later e s l f = simp (f, get) (ground (arith, is_expired_lem later e))

unknown : (id later : ℕ) (s : ContextStore) → find id s.contexts ≡ none → (get later id s).1 ≡ none
unfolding get
unknown id later s f = simp (f, get) refl

-- A context that was created in a valid store is found under the identifier that Create returned, unchanged,
-- after any further calls that neither close that identifier nor clear the store, at any time up to its
-- creation and its time to live, if no call looked for expired contexts after that time. The identifiers that
-- these calls give out are below 2^64.
pub get-create :
    (h : History) (cs : List Call) (now credentials context : ℕ) (spn : List ℕ) (ttl later : ℕ)
    → IsValid h.store
    → suc (h.store.next_id + creations cs) < u64_mod
    → All (λ c. spares h.store.next_id (now + ttl) c ≡ true) cs
    → later ≤ now + ttl
    → let call = create_call now credentials context spn ttl in
      let s = (run (call ∷ cs) h).store in
      (get later (create now credentials context spn ttl h.store).1 s).1
      ≡ some (new_context now credentials context spn ttl)
unfolding create
get-create h cs now credentials context spn ttl later v l s d =
    let call = create_call now credentials context spn ttl in
    let e = new_context now credentials context spn ttl in
    let more : creations (call ∷ cs) ≡ suc (creations cs) = unfold creations in refl in
    let m = next_id_lem call cs h (omega arith) in
    let here : find h.store.next_id (step call h).store.contexts ≡ some e =
      unfold step in
      ground (arith, find-insert h.store.next_id h.store.next_id e h.store.contexts) in
    found h.store.next_id later e (run (call ∷ cs) h).store d (
      unfold run in
      run-known h.store.next_id e cs (step call h) (omega arith)
        (step-IsValid call cs h (omega arith) v) (omega arith) s here)

-- The store knows no identifier that was closed, whatever calls follow and however many, and the next
-- Create does not return it again, as long as the identifiers that are given out are below 2^64.
pub get-close :
    (h : History) (cs : List Call) (id later credentials context : ℕ) (spn : List ℕ) (ttl : ℕ)
    → IsValid h.store
    → id < h.store.next_id
    → h.store.next_id + creations cs < u64_mod
    → let s = (run (close_call id ∷ cs) h).store in
      ((get later id s).1 ≡ none) × (id < (create later credentials context spn ttl s).1)
unfolding create
get-close h cs id later credentials context spn ttl v k l =
    let call = close_call id in
    let same : creations (call ∷ cs) ≡ creations cs = unfold creations in refl in
    let m = next_id_lem call cs h (omega arith) in
    let grown = next_id_grows call cs h (omega arith) in
    let gone = closed id h.store in
    let w = step-IsValid call cs h (omega arith) v in
    (
      unknown id later (run (call ∷ cs) h).store (
          unfold run in
          run-unknown id cs (step call h) (omega arith) w (omega arith) (unfold step in gone)),
      unfold run in omega (arith, run-grows cs (step call h) (omega arith)),
    )
