-- ===== src/ContextStore.antt =====
-- The store of security contexts of the authentication agent (auth-agent, ContextStore.cpp and
-- ContextStore.h). The lock makes each method one step; the clock is an argument, in ticks; handles are
-- numbers. `released` lists the entries whose two handles DestroyContext gave back.
pub mod Entries
pub mod Histories
pub mod Accounts
pub mod Identity
mod Tests
use tcp_redirector.Prelude.{
  ℕ, ◌+◌, Bool, true, List, [], ◌∷◌, ◌++◌, Option, none, some, length, ltb, ◌==◌, add64,
  if◌then◌else◌,
}

pub record ContextEntry : Type 0 where
  pub credentials : ℕ
  pub context : ℕ
  pub spn : List ℕ
  pub created_at : ℕ
  pub ttl : ℕ
  pub in_use : Bool

-- The map from identifiers to entries, in any order.
abbrev pub Contexts : Type 0
Contexts = List (ℕ × ContextEntry)

pub record ContextStore : Type 0 where
  pub contexts : Contexts
  pub next_id : ℕ

unfoldable pub is_expired : ℕ → ContextEntry → Bool
is_expired now e = ltb (e.created_at + e.ttl) now

unfoldable pub find : ℕ → Contexts → Option ContextEntry
find id [] = none
find id ((i, e) ∷ m) = if i == id then some e else find id m

unfoldable pub erase : ℕ → Contexts → Contexts
erase id [] = []
erase id ((i, e) ∷ m) = let rest = erase id m in if i == id then rest else (i, e) ∷ rest

-- `m_contexts[id] = entry`.
unfoldable pub insert : ℕ → ContextEntry → Contexts → Contexts
insert id e m = (id, e) ∷ erase id m

-- The entry whose handles are given back; an entry that is not in use has none.
unfoldable pub destroy_context : ContextEntry → List ContextEntry
destroy_context e = if e.in_use then e ∷ [] else []

abbrev pub new_context : ℕ → ℕ → ℕ → List ℕ → ℕ → ContextEntry
new_context now credentials context spn ttl = record {
  credentials = credentials;
  context = context;
  spn = spn;
  created_at = now;
  ttl = ttl;
  in_use = true;
}

unfoldable pub create : ℕ → ℕ → ℕ → List ℕ → ℕ → ContextStore → ContextStore × ℕ
create now credentials context spn ttl s = (
  record {
    contexts = insert s.next_id (new_context now credentials context spn ttl) s.contexts;
    next_id = add64 s.next_id 1;
  },
  s.next_id,
)

-- The store, what is found, and what is released.
unfoldable pub get : ℕ → ℕ → ContextStore → ContextStore × Option ContextEntry × List ContextEntry
get now id s = elim (find id s.contexts) [
  | none ↦ (s, none, [])
  | some e ↦
      if is_expired now e
      then (record s { contexts = erase id s.contexts }, none, destroy_context e)
      else (s, some e, [])
]

unfoldable pub close : ℕ → ContextStore → ContextStore × List ContextEntry
close id s = elim (find id s.contexts) [
  | none ↦ (s, [])
  | some e ↦ (record s { contexts = erase id s.contexts }, destroy_context e)
]

-- The loop of CleanupExpired: what stays, and what is released.
unfoldable pub cleanup_from : ℕ → Contexts → Contexts × List ContextEntry
cleanup_from now [] = ([], [])
cleanup_from now ((i, e) ∷ m) =
    let (rest, gone) = cleanup_from now m in
    if is_expired now e then (rest, destroy_context e ++ gone) else ((i, e) ∷ rest, gone)

unfoldable pub cleanup_expired : ℕ → ContextStore → ContextStore × List ContextEntry
cleanup_expired now s =
    let (rest, gone) = cleanup_from now s.contexts in (record s { contexts = rest }, gone)

unfoldable pub destroy_all : Contexts → List ContextEntry
destroy_all [] = []
destroy_all ((i, e) ∷ m) = destroy_context e ++ destroy_all m

unfoldable pub clear : ContextStore → ContextStore × List ContextEntry
clear s = (record s { contexts = [] }, destroy_all s.contexts)

unfoldable pub size : ContextStore → ℕ
size s = length s.contexts

abbrev pub empty_store : ContextStore
empty_store = record { contexts = []; next_id = 1 }

-- The calls of the store, with the time at which they come.
pub data Call : Type 0 where
  create_call : (now credentials context : ℕ) (spn : List ℕ) (ttl : ℕ) → Call
  get_call : (now id : ℕ) → Call
  close_call : (id : ℕ) → Call
  cleanup_call : (now : ℕ) → Call
  clear_call : Call

-- A store with what was created and what was released so far.
pub record History : Type 0 where
  pub store : ContextStore
  pub created : List ContextEntry
  pub released : List ContextEntry

unfoldable pub step : Call → History → History
step (create_call now credentials context spn ttl) h = record h {
  store = (create now credentials context spn ttl h.store).0;
  created = new_context now credentials context spn ttl ∷ h.created;
}
step (get_call now id) h =
    let (s, e, gone) = get now id h.store in record h { store = s; released = gone ++ h.released }
step (close_call id) h =
    let (s, gone) = close id h.store in record h { store = s; released = gone ++ h.released }
step (cleanup_call now) h =
    let (s, gone) = cleanup_expired now h.store in
    record h { store = s; released = gone ++ h.released }
step clear_call h =
    let (s, gone) = clear h.store in record h { store = s; released = gone ++ h.released }

unfoldable pub run : List Call → History → History
run [] h = h
run (c ∷ cs) h = run cs (step c h)
