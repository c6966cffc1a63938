-- ===== src/ContextStore/Accounts.antt =====
-- ContextStore.cpp: what is created, what is held and what is released, over any history of calls.
use tcp_redirector.ContextStore.Entries.{Fits, IsDistinct, find-none, erase-none}
use tcp_redirector.ContextStore.Histories.{IsValid, creations, next_id_lem, step-IsValid}
use tcp_redirector.ContextStore.{
  ContextEntry, Contexts, ContextStore, Call, create_call, get_call, close_call, cleanup_call,
  clear_call, History, find, erase, insert, destroy_context, create, get, close, cleanup_from,
  cleanup_expired, destroy_all, clear, empty_store, step, run,
}
use tcp_redirector.Prelude.{
  ℕ, suc, ◌+◌, ◌<◌, ◌≡◌, List, [], ◌∷◌, ◌++◌, some, ◌==◌, if◌then◌else◌, ap, All, arith, u64_mod,
  refl, Option-cases, inl, inr,
}

-- How many entries have a context handle.
unfoldable pub count : ℕ → List ContextEntry → ℕ
count handle [] = 0
count handle (e ∷ es) = (if e.context == handle then 1 else 0) + count handle es

unfoldable pub held : ℕ → Contexts → ℕ
held handle [] = 0
held handle ((i, e) ∷ m) = (if e.context == handle then 1 else 0) + held handle m

count-append :
    (handle : ℕ) (xs ys : List ContextEntry)
    → count handle (xs ++ ys) ≡ count handle xs + count handle ys
unfolding count
count-append handle [] ys = omega arith
count-append handle (x ∷ xs) ys = ground (arith, count-append handle xs ys)

held-erase :
    (handle id bound : ℕ) (m : Contexts) (e : ContextEntry)
    → IsDistinct m
    → All (Fits bound) m
    → find id m ≡ some e
    → held handle m ≡ count handle (destroy_context e) + held handle (erase id m)
unfolding held find erase count destroy_context
held-erase handle id bound [] e d f h = cc
held-erase handle id bound ((i, x) ∷ m) e d f h =
    ground (arith, held-erase handle id bound m e d.1 f.1, erase-none id m, d.0, f.0)

held-cleanup_from :
    (handle now bound : ℕ) (m : Contexts)
    → All (Fits bound) m
    → held handle m ≡ count handle (cleanup_from now m).1 + held handle (cleanup_from now m).0
unfolding held cleanup_from count destroy_context
held-cleanup_from handle now bound [] f = refl
held-cleanup_from handle now bound ((i, e) ∷ m) f = ground (
  arith,
  held-cleanup_from handle now bound m f.1,
  f.0,
  count-append handle (e ∷ []) (cleanup_from now m).1,
)

held-destroy_all :
    (handle bound : ℕ) (m : Contexts)
    → All (Fits bound) m
    → held handle m ≡ count handle (destroy_all m)
unfolding held destroy_all count destroy_context
held-destroy_all handle bound [] f = refl
held-destroy_all handle bound ((i, e) ∷ m) f =
    ground (
      arith,
      held-destroy_all handle bound m f.1,
      f.0,
      count-append handle (e ∷ []) (destroy_all m),
    )

-- What was created of a handle is what was released of it and what the store holds of it.
abbrev pub Balanced : ℕ → History → Type 0
Balanced handle h = count handle h.created ≡ count handle h.released + held handle h.store.contexts

get-held :
    (handle now id : ℕ) (s : ContextStore)
    → IsValid s
    → let r = get now id s in held handle s.contexts ≡ count handle r.2 + held handle r.0.contexts
unfolding get count
get-held handle now id s v = elim (Option-cases (find id s.contexts)) [
  | inl n ↦ simp (n, get) (omega arith)
  | inr (e, f) ↦
      simp (f, get)
        (ground (arith, held-erase handle id s.next_id s.contexts e v.distinct v.fitting f))
]

close-held :
    (handle id : ℕ) (s : ContextStore)
    → IsValid s
    → let r = close id s in held handle s.contexts ≡ count handle r.1 + held handle r.0.contexts
unfolding close count
close-held handle id s v = elim (Option-cases (find id s.contexts)) [
  | inl n ↦ simp (n, close) (omega arith)
  | inr (e, f) ↦
      simp (f, close) (held-erase handle id s.next_id s.contexts e v.distinct v.fitting f)
]

step-Balanced :
    (handle : ℕ) (c : Call) (h : History)
    → IsValid h.store
    → Balanced handle h
    → Balanced handle (step c h)
unfolding step create insert cleanup_expired clear count held
step-Balanced handle (create_call now credentials context spn ttl) h v b =
    let fresh =
      erase-none h.store.next_id h.store.contexts
        (find-none h.store.next_id h.store.contexts v.fitting) in
    ground (arith, ap (held handle) fresh)
step-Balanced handle (get_call now id) h v b =
    omega (
      arith,
      count-append handle (get now id h.store).2 h.released,
      get-held handle now id h.store v,
    )
step-Balanced handle (close_call id) h v b =
    omega
      (arith, count-append handle (close id h.store).1 h.released, close-held handle id h.store v)
step-Balanced handle (cleanup_call now) h v b =
    let gone = (cleanup_from now h.store.contexts).1 in
    omega (
      arith,
      count-append handle gone h.released,
      held-cleanup_from handle now h.store.next_id h.store.contexts v.fitting,
    )
step-Balanced handle clear_call h v b = omega (
  arith,
  count-append handle (destroy_all h.store.contexts) h.released,
  held-destroy_all handle h.store.next_id h.store.contexts v.fitting,
)

run-Accounts :
    (handle : ℕ) (cs : List Call) (h : History)
    → h.store.next_id + creations cs < u64_mod
    → IsValid h.store
    → Balanced handle h
    → IsValid (run cs h).store × Balanced handle (run cs h)
unfolding run
run-Accounts handle [] h l v b = (v, b)
run-Accounts handle (c ∷ cs) h l v b =
    run-Accounts handle cs (step c h) (omega (arith, next_id_lem c cs h l))
      (step-IsValid c cs h l v) (step-Balanced handle c h v b)

abbrev pub fresh : History
fresh = record { store = empty_store; created = []; released = [] }

-- Over any history of fewer than 2^64 - 1 creations from an empty store, whatever is created, looked up,
-- closed, cleaned up or cleared and at whatever times, the entries with a handle that were created are those
-- that were released and those that the store holds: none is released twice, and none is lost.
pub run-Balanced :
    (handle : ℕ) (cs : List Call) → suc (creations cs) < u64_mod → Balanced handle (run cs fresh)
unfolding count held
run-Balanced handle cs l =
    (run-Accounts handle cs fresh (omega arith) (record { distinct = tt; fitting = tt }) refl).1

-- After such a history a Clear leaves nothing behind: every handle was released as often as created.
pub run_clear :
    (handle : ℕ) (cs : List Call)
    → suc (creations cs) < u64_mod
    → let h = step clear_call (run cs fresh) in
      (h.store.contexts ≡ []) × (count handle h.created ≡ count handle h.released)
unfolding step clear count held
run_clear handle cs l =
    let (v, b) =
      run-Accounts handle cs fresh (omega arith) (record { distinct = tt; fitting = tt }) refl in
    let c = step-Balanced handle clear_call (run cs fresh) v b in (refl, omega (arith, c))
