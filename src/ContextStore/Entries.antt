-- ===== src/ContextStore/Entries.antt =====
-- ContextStore.cpp: the map from identifiers to entries.
use tcp_redirector.ContextStore.{
  ContextEntry, Contexts, is_expired, find, erase, insert, cleanup_from,
}
use tcp_redirector.Prelude.{
  ℕ, ◌<◌, ◌≡◌, true, [], ◌∷◌, none, some, ◌==◌, if◌then◌else◌, All, arith, refl,
}

pub find-erase :
    (id j : ℕ) (m : Contexts) → find id (erase j m) ≡ (if id == j then none else find id m)
unfolding find erase
find-erase id j [] = ground arith
find-erase id j ((i, e) ∷ m) = ground (arith, find-erase id j m)

pub find-insert :
    (id j : ℕ) (e : ContextEntry) (m : Contexts)
    → find id (insert j e m) ≡ (if id == j then some e else find id m)
unfolding find insert
find-insert id j e m = ground (arith, find-erase id j m)

-- Every identifier is below a bound, and every entry is in use.
abbrev pub Fits : ℕ → ℕ × ContextEntry → Type 0
Fits bound p = (p.0 < bound) × (p.1.in_use ≡ true)

-- No identifier stands twice.
abbrev pub IsDistinct : Contexts → Type 0
IsDistinct [] = Unit
IsDistinct ((i, e) ∷ m) = (find i m ≡ none) × IsDistinct m

pub find-none : (id : ℕ) (m : Contexts) → All (Fits id) m → find id m ≡ none
unfolding find
find-none id [] h = refl
find-none id ((i, e) ∷ m) h = ground (arith, find-none id m h.1, h.0)

pub erase-none : (id : ℕ) (m : Contexts) → find id m ≡ none → erase id m ≡ m
unfolding find erase
erase-none id [] h = refl
erase-none id ((i, e) ∷ m) h = ground (arith, erase-none id m)

pub erase-Fits : (bound id : ℕ) (m : Contexts) → All (Fits bound) m → All (Fits bound) (erase id m)
unfolding erase
erase-Fits bound id [] h = tt
erase-Fits bound id ((i, e) ∷ m) h = ground (arith, erase-Fits bound id m h.1, h.0)

pub erase-IsDistinct : (id : ℕ) (m : Contexts) → IsDistinct m → IsDistinct (erase id m)
unfolding erase
erase-IsDistinct id [] h = tt
erase-IsDistinct id ((i, e) ∷ m) h =
    ground (arith, erase-IsDistinct id m h.1, h.0, find-erase i id m)

pub cleanup_from-Fits :
    (bound now : ℕ) (m : Contexts) → All (Fits bound) m → All (Fits bound) (cleanup_from now m).0
unfolding cleanup_from
cleanup_from-Fits bound now [] h = tt
cleanup_from-Fits bound now ((i, e) ∷ m) h = ground (arith, cleanup_from-Fits bound now m h.1, h.0)

-- What a cleanup leaves under an identifier.
pub find-cleanup_from :
    (now id : ℕ) (m : Contexts)
    → IsDistinct m
    → find id (cleanup_from now m).0
      ≡ (elim (find id m) [ none ↦ none | some e ↦ if is_expired now e then none else some e ])
unfolding find cleanup_from
find-cleanup_from now id [] h = refl
find-cleanup_from now id ((i, e) ∷ m) h = ground (arith, find-cleanup_from now id m h.1, h.0)

pub cleanup_from-IsDistinct :
    (now : ℕ) (m : Contexts) → IsDistinct m → IsDistinct (cleanup_from now m).0
unfolding cleanup_from
cleanup_from-IsDistinct now [] h = tt
cleanup_from-IsDistinct now ((i, e) ∷ m) h =
    ground (arith, cleanup_from-IsDistinct now m h.1, h.0, find-cleanup_from now i m h.1)
