-- ===== src/ContextStore/Histories.antt =====
-- ContextStore.cpp: the invariant of the store, over any history of calls.
use mathlib.Core.Path.{subst}
use tcp_redirector.ContextStore.Entries.{
  Fits, IsDistinct, find-erase, erase-Fits, erase-IsDistinct, cleanup_from-Fits,
  cleanup_from-IsDistinct,
}
use tcp_redirector.ContextStore.{
  Contexts, ContextStore, Call, create_call, get_call, close_call, cleanup_call, clear_call,
  History, insert, create, get, close, new_context, cleanup_expired, clear, step,
}
use tcp_redirector.Prelude.{
  ℕ, suc, ◌+◌, ◌<◌, ◌≤◌, ◌≡◌, List, [], ◌∷◌, ◌%◌, sym, All, All-map, arith, u64_mod, refl,
}

-- Identifiers are distinct and below the next one, and the entries are in use.
pub record IsValid (s : ContextStore) : Type 0 where
  pub distinct : IsDistinct s.contexts
  pub fitting : All (Fits s.next_id) s.contexts

Fits-suc : (n : ℕ) (m : Contexts) → All (Fits n) m → All (Fits (suc n)) m
Fits-suc n m h = All-map (Fits n) (Fits (suc n)) (λ p q. (omega (arith, q.0), q.1)) m h

pub create-IsValid :
    (s : ContextStore) (now credentials context : ℕ) (spn : List ℕ) (ttl : ℕ)
    → suc s.next_id < u64_mod
    → IsValid s
    → IsValid (create now credentials context spn ttl s).0
unfolding create insert
create-IsValid s now credentials context spn ttl l v =
    let entry = new_context now credentials context spn ttl in
    let n : (s.next_id + 1) % u64_mod ≡ suc s.next_id = omega arith in
    let fits =
      erase-Fits (suc s.next_id) s.next_id s.contexts (Fits-suc s.next_id s.contexts v.fitting) in
    record {
      distinct = (
        ground (arith, find-erase s.next_id s.next_id s.contexts),
        erase-IsDistinct s.next_id s.contexts v.distinct,
      );
      fitting =
          subst (λ b. All (Fits b) (insert s.next_id entry s.contexts)) (sym n)
            ((omega arith, refl), fits);
    }

pub get-IsValid : (s : ContextStore) (now id : ℕ) → IsValid s → IsValid (get now id s).0
unfolding get
get-IsValid s now id v = ground (
  arith,
  v.distinct,
  v.fitting,
  erase-Fits s.next_id id s.contexts v.fitting,
  erase-IsDistinct id s.contexts v.distinct,
)

pub close-IsValid : (s : ContextStore) (id : ℕ) → IsValid s → IsValid (close id s).0
unfolding close
close-IsValid s id v = ground (
  arith,
  v.distinct,
  v.fitting,
  erase-Fits s.next_id id s.contexts v.fitting,
  erase-IsDistinct id s.contexts v.distinct,
)

pub cleanup_expired-IsValid :
    (s : ContextStore) (now : ℕ) → IsValid s → IsValid (cleanup_expired now s).0
unfolding cleanup_expired
cleanup_expired-IsValid s now v = record {
  distinct = cleanup_from-IsDistinct now s.contexts v.distinct;
  fitting = cleanup_from-Fits s.next_id now s.contexts v.fitting;
}

-- The number of identifiers that a history gives out.
unfoldable pub creations : List Call → ℕ
creations [] = 0
creations (create_call now credentials context spn ttl ∷ cs) = suc (creations cs)
creations (get_call now id ∷ cs) = creations cs
creations (close_call id ∷ cs) = creations cs
creations (cleanup_call now ∷ cs) = creations cs
creations (clear_call ∷ cs) = creations cs

pub creations-cons : (c : Call) (cs : List Call) → creations cs ≤ creations (c ∷ cs)
unfolding creations
creations-cons (create_call now credentials context spn ttl) cs = omega arith
creations-cons (get_call now id) cs = omega arith
creations-cons (close_call id) cs = omega arith
creations-cons (cleanup_call now) cs = omega arith
creations-cons clear_call cs = omega arith

-- The next identifier after a call.
pub next_id_lem :
    (c : Call) (cs : List Call) (h : History)
    → h.store.next_id + creations (c ∷ cs) < u64_mod
    → (step c h).store.next_id + creations cs ≡ h.store.next_id + creations (c ∷ cs)
unfolding step create get close cleanup_expired clear creations
next_id_lem (create_call now credentials context spn ttl) cs h l = omega arith
next_id_lem (get_call now id) cs h l = ground arith
next_id_lem (close_call id) cs h l = ground arith
next_id_lem (cleanup_call now) cs h l = refl
next_id_lem clear_call cs h l = refl

pub next_id_grows :
    (c : Call) (cs : List Call) (h : History)
    → h.store.next_id + creations (c ∷ cs) < u64_mod
    → h.store.next_id ≤ (step c h).store.next_id
next_id_grows c cs h l = omega (arith, next_id_lem c cs h l, creations-cons c cs)

pub step-IsValid :
    (c : Call) (cs : List Call) (h : History)
    → h.store.next_id + creations (c ∷ cs) < u64_mod
    → IsValid h.store
    → IsValid (step c h).store
unfolding step creations clear
step-IsValid (create_call now credentials context spn ttl) cs h l v =
    create-IsValid h.store now credentials context spn ttl (omega arith) v
step-IsValid (get_call now id) cs h l v = get-IsValid h.store now id v
step-IsValid (close_call id) cs h l v = close-IsValid h.store id v
step-IsValid (cleanup_call now) cs h l v = cleanup_expired-IsValid h.store now v
step-IsValid clear_call cs h l v = record { distinct = tt; fitting = tt }
