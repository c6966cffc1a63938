-- ===== src/ConnectionTable/Placement.antt =====
-- ConnectionTable.h: every entry stands in the bucket of its port, and the count is that of the entries.
use mathlib.Core.Path.{subst}
use tcp_redirector.Prelude.{
  ℕ, zero, suc, ◌+◌, ◌%◌, ◌<◌, ◌≡◌, refl, sym, true, List, [], ◌∷◌, some, length, get_or, set,
  replicate, length-replicate, All, if-cases, inl, inr, arith, Option-cases, u32_mod,
}
use tcp_redirector.ConnectionTable.{
  ConnectionEntry, ConnectionTable, path_size, is_live, update_key, change_live, remove_port, empty,
}
use tcp_redirector.ConnectionTable.Chains.{put, removed}

-- The entry belongs to the bucket, is tracked, and its path is a text that its array holds.
abbrev pub Good : ℕ → ℕ → ConnectionEntry → Type 0
Good size i e = (e.src_port % size ≡ i) × (e.is_tracked ≡ true) × (length e.proc_path < path_size)

-- The chains from bucket `i` on hold entries of their own buckets.
abbrev pub Placed : ℕ → ℕ → List (List ConnectionEntry) → Type 0
Placed size i [] = Unit
Placed size i (c ∷ cs) = All (Good size i) c × Placed size (suc i) cs

abbrev pub total : List (List ConnectionEntry) → ℕ
total [] = 0
total (c ∷ cs) = length c + total cs

pub record IsValid (size : ℕ) (t : ConnectionTable) : Type 0 where
  pub buckets : length t.table ≡ size
  pub placed : Placed size 0 t.table
  pub counted : t.tracked_count ≡ total t.table
  pub bounded : t.tracked_count < u32_mod

Placed-set :
    (size i k : ℕ) (cs : List (List ConnectionEntry)) (es : List ConnectionEntry)
    → Placed size k cs
    → All (Good size (k + i)) es
    → Placed size k (set cs i es)
Placed-set size i k [] es h g = tt
Placed-set size zero k (c ∷ cs) es h g =
    let e : k + 0 ≡ k = omega arith in (subst (λ n. All (Good size n) es) e g, h.1)
Placed-set size (suc i) k (c ∷ cs) es h g =
    let e : k + suc i ≡ suc k + i = omega arith in
    (h.0, Placed-set size i (suc k) cs es h.1 (subst (λ n. All (Good size n) es) e g))

Placed-get :
    (size i k : ℕ) (cs : List (List ConnectionEntry))
    → Placed size k cs
    → All (Good size (k + i)) (get_or cs i [])
Placed-get size i k [] h = tt
Placed-get size zero k (c ∷ cs) h =
    let e : k ≡ k + 0 = omega arith in subst (λ n. All (Good size n) c) e h.0
Placed-get size (suc i) k (c ∷ cs) h =
    let e : suc k + i ≡ k + suc i = omega arith in
    subst (λ n. All (Good size n) (get_or cs i [])) e (Placed-get size i (suc k) cs h.1)

-- The same, from the first bucket on.
pub bucket-set :
    (size i : ℕ) (cs : List (List ConnectionEntry)) (es : List ConnectionEntry)
    → Placed size 0 cs
    → All (Good size i) es
    → Placed size 0 (set cs i es)
bucket-set size i cs es h g =
    let e : i ≡ 0 + i = omega arith in
    Placed-set size i 0 cs es h (subst (λ n. All (Good size n) es) e g)

pub bucket-get :
    (size i : ℕ) (cs : List (List ConnectionEntry))
    → Placed size 0 cs
    → All (Good size i) (get_or cs i [])
bucket-get size i cs h =
    let e : 0 + i ≡ i = omega arith in
    subst (λ n. All (Good size n) (get_or cs i [])) e (Placed-get size i 0 cs h)

pub total-set :
    (i : ℕ) (cs : List (List ConnectionEntry)) (es : List ConnectionEntry)
    → i < length cs
    → total (set cs i es) + length (get_or cs i []) ≡ total cs + length es
total-set i [] es h = absurd (omega arith)
total-set zero (c ∷ cs) es h = omega arith
total-set (suc i) (c ∷ cs) es h = omega (arith, total-set i cs es (omega arith))

pub put-Good :
    (size i p from ip dest config : ℕ) (es : List ConnectionEntry)
    → p % size ≡ i
    → All (Good size i) es
    → All (Good size i) (put p from ip dest config es)
unfolding update_key
put-Good size i p from ip dest config [] m h = ground arith
put-Good size i p from ip dest config (e ∷ es) m h =
    ground (arith, put-Good size i p from ip dest config es m h.1)

pub removed-Good :
    (size i p : ℕ) (es : List ConnectionEntry)
    → All (Good size i) es
    → All (Good size i) (removed p es)
unfolding remove_port
removed-Good size i p [] h = tt
removed-Good size i p (e ∷ es) h = ground (arith, removed-Good size i p es h.1)

pub change_live-Good :
    (size i p : ℕ) (f : ConnectionEntry → ConnectionEntry) (es : List ConnectionEntry)
    → ((e : ConnectionEntry) → Good size i e → Good size i (f e))
    → All (Good size i) es
    → All (Good size i) (change_live p f es)
unfolding change_live
change_live-Good size i p f [] keeps h = tt
change_live-Good size i p f (e ∷ es) keeps h =
    if-cases (All (Good size i)) (is_live p e) (keeps e h.0, h.1)
      (h.0, change_live-Good size i p f es keeps h.1)

pub length-change_live :
    (p : ℕ) (f : ConnectionEntry → ConnectionEntry) (es : List ConnectionEntry)
    → length (change_live p f es) ≡ length es
unfolding change_live
length-change_live p f [] = refl
length-change_live p f (e ∷ es) = ground (arith, length-change_live p f es)

pub length-update :
    (p from ip dest config : ℕ) (es fs : List ConnectionEntry)
    → update_key p from ip dest config es ≡ some fs
    → length fs ≡ length es
unfolding update_key
length-update p from ip dest config [] fs h = cc
length-update p from ip dest config (e ∷ es) fs h =
    elim (Option-cases (update_key p from ip dest config es)) [
      | inl u ↦ ground arith
      | inr (gs, u) ↦ ground (arith, length-update p from ip dest config es gs u)
    ]

pub length-remove_port :
    (p : ℕ) (es fs : List ConnectionEntry)
    → remove_port p es ≡ some fs
    → length es ≡ suc (length fs)
unfolding remove_port
length-remove_port p [] fs h = cc
length-remove_port p (e ∷ es) fs h = elim (Option-cases (remove_port p es)) [
  | inl u ↦ ground arith
  | inr (gs, u) ↦ ground (arith, length-remove_port p es gs u)
]

Placed-replicate : (size k n : ℕ) → Placed size k (replicate n [])
Placed-replicate size k zero = tt
Placed-replicate size k (suc n) = (tt, Placed-replicate size (suc k) n)

total-replicate : (n : ℕ) → total (replicate n []) ≡ 0
total-replicate zero = refl
total-replicate (suc n) = omega (arith, total-replicate n)

pub empty-IsValid : (size : ℕ) → IsValid size (empty size)
unfolding empty
empty-IsValid size = record {
  buckets = length-replicate size [];
  placed = Placed-replicate size 0 size;
  counted = sym (total-replicate size);
  bounded = omega arith;
}
