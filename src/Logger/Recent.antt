-- ===== src/Logger/Recent.antt =====
-- Logger.cpp: what GetRecentEntries gives.
use Prim.Native.Nat.{min}
use tcp_redirector.Prelude.{
  ℕ, zero, suc, ◌+◌, ◌-◌, ◌*◌, ◌/◌, ◌%◌, ◌≤◌, ◌<◌, ◌≡◌, true, false, List, [], ◌∷◌, ◌++◌, some,
  refl, sym, ap, ◌∙◌, arith, length, take, drop, get_elem?, length-append, append_assoc, append-nil,
  u64_mod, length-drop, ◌==◌, inl, inr, Bool-cases, ltb, ==_iff,
}
use tcp_redirector.Logger.Entities.{LogEntry, Logger}
use tcp_redirector.Logger.Ring.{add_to_ring_buffer, slice, slice_around, get_recent_entries}

-- The entries, added in their order.
abbrev pub add_all : List LogEntry → Logger → Logger
add_all [] l = l
add_all (e ∷ es) l = add_all es (add_to_ring_buffer e l)

module _ {ℓ} {A : Type ℓ} where
  get_elem?-snoc :
      (xs : List A) (x : A) (i : ℕ) → i < length xs → get_elem? (xs ++ x ∷ []) i ≡ get_elem? xs i
  get_elem?-snoc [] x i h = absurd (omega arith)
  get_elem?-snoc (y ∷ ys) x zero h = refl
  get_elem?-snoc (y ∷ ys) x (suc i) h = get_elem?-snoc ys x i (omega arith)

  get_elem?-last : (xs : List A) (x : A) → get_elem? (xs ++ x ∷ []) (length xs) ≡ some x
  get_elem?-last [] x = refl
  get_elem?-last (y ∷ ys) x = get_elem?-last ys x

  drop-get_elem? :
      (xs : List A) (x : A) (i : ℕ) → some x ≡ get_elem? xs i → drop i xs ≡ x ∷ drop (suc i) xs
  drop-get_elem? [] x i h = cc
  drop-get_elem? (y ∷ ys) x zero h = cc
  drop-get_elem? (y ∷ ys) x (suc i) h = drop-get_elem? ys x i h

  drop_nil : (n : ℕ) → drop {A = A} n [] ≡ []
  drop_nil zero = refl
  drop_nil (suc n) = refl

  take_all : (xs : List A) (n : ℕ) → length xs ≤ n → take n xs ≡ xs
  take_all [] zero h = refl
  take_all [] (suc n) h = refl
  take_all (x ∷ xs) zero h = absurd (omega arith)
  take_all (x ∷ xs) (suc n) h = ap (λ ys. x ∷ ys) (take_all xs n (omega arith))

  take-append-take : (a b : ℕ) (xs : List A) → take a xs ++ take b (drop a xs) ≡ take (a + b) xs
  take-append-take zero b xs = let e : 0 + b ≡ b = omega arith in rw e
  take-append-take (suc a) b [] =
      let e : suc a + b ≡ suc (a + b) = omega arith in rw e (take_all [] b (omega arith))
  take-append-take (suc a) b (x ∷ xs) =
      let e : suc a + b ≡ suc (a + b) = omega arith in
      rw e (ap (λ ys. x ∷ ys) (take-append-take a b xs))

  drop-drop : (s a : ℕ) (xs : List A) → drop a (drop s xs) ≡ drop (s + a) xs
  drop-drop zero a xs = let e : 0 + a ≡ a = omega arith in rw e
  drop-drop (suc s) a [] = let e : suc s + a ≡ suc (s + a) = omega arith in rw e (drop_nil a)
  drop-drop (suc s) a (x ∷ xs) =
      let e : suc s + a ≡ suc (s + a) = omega arith in rw e (drop-drop s a xs)

-- The ring has the last 2000 entries of a list, each at its number modulo 2000.
pub record Holds (es : List LogEntry) (l : Logger) : Type 0 where
  pub index : l.ring_index ≡ length es
  pub entry :
      (i : ℕ) → i < length es → length es ≤ i + 2000 → some (l.ring (i % 2000)) ≡ get_elem? es i

add-Holds :
    (es : List LogEntry) (e : LogEntry) (l : Logger)
    → length es + 1 < u64_mod
    → Holds es l
    → Holds (es ++ e ∷ []) (add_to_ring_buffer e l)
unfolding add_to_ring_buffer
add-Holds es e l small h = record {
  index = ground (arith, h.index, length-append es (e ∷ []));
  entry = λ i below near.
      let size : length (es ++ e ∷ []) ≡ length es + 1 = length-append es (e ∷ []) in
      elim (Bool-cases (i == length es)) [
        | inl same ↦
            let at : i ≡ length es = (==_iff i (length es)).0 same in
            let here : ((length es % 2000) == (l.ring_index % 2000)) ≡ true =
              ground (arith, h.index) in
            simp (here, at, get_elem?-last es e) refl
        | inr other ↦
            let under : i < length es = ground arith in
            let apart : ((i % 2000) == (l.ring_index % 2000)) ≡ false = ground (arith, h.index) in
            simp (apart, get_elem?-snoc es e i under) (h.entry i under (omega arith))
      ];
}

module _ (es : List LogEntry) (l : Logger) (h : Holds es l) where
  slice_lem :
      (i count s q : ℕ)
      → s ≡ i + 2000 * q
      → i + count ≤ 2000
      → s + count ≤ length es
      → length es ≤ s + 2000
      → slice l.ring i count ≡ take count (drop s es)
  unfolding slice
  slice_lem i zero s q at fits below near = refl
  slice_lem i (suc count) s q at fits below near =
      let own : some (l.ring i) ≡ get_elem? es s =
        let e : i ≡ s % 2000 = omega arith in rw e (h.entry s (omega arith) near) in
      rw (drop-get_elem? es (l.ring i) s own) (
        ap (λ ys. l.ring i ∷ ys)
          (slice_lem (i + 1) count (suc s) q (omega arith) (omega arith) (omega arith)
            (omega arith)))

  slice_around_lem :
      (i count s : ℕ)
      → i ≡ s % 2000
      → s + count ≤ length es
      → length es ≤ s + 2000
      → slice_around l.ring i count ≡ take count (drop s es)
  unfolding slice_around
  slice_around_lem i zero s at below near = refl
  slice_around_lem i (suc count) s at below near =
      let own : some (l.ring i) ≡ get_elem? es s = rw at (h.entry s (omega arith) near) in
      rw (drop-get_elem? es (l.ring i) s own) (
        ap (λ ys. l.ring i ∷ ys)
          (slice_around_lem ((i + 1) % 2000) count (suc s) (omega arith) (omega arith)
            (omega arith)))

add_all-Holds :
    (es fs : List LogEntry) (l : Logger)
    → length (es ++ fs) < u64_mod
    → Holds es l
    → Holds (es ++ fs) (add_all fs l)
add_all-Holds es [] l small h = rw (append-nil es) h
add_all-Holds es (e ∷ fs) l small h =
    let same : (es ++ e ∷ []) ++ fs ≡ es ++ e ∷ fs = append_assoc es (e ∷ []) fs in
    rw (← same) (
      add_all-Holds (es ++ e ∷ []) fs (add_to_ring_buffer e l) (rw same small)
        (add-Holds es e l (omega (arith, length-append es (e ∷ fs))) h))

module _ (k : ℕ) (es : List LogEntry) (l : Logger) (h : Holds es l) where
  -- The last entries, from one on, that is no further back than the ring reaches.
  slice_tail :
      (start : ℕ)
      → start ≤ length es
      → length es < 2000
      → slice l.ring start (length es - start) ≡ drop start es
  slice_tail start below short =
      slice_lem es l h start (length es - start) start 0 (omega arith) (omega arith) (omega arith)
        (omega arith)
      ∙ take_all (drop start es) (length es - start) (omega (arith, length-drop start es))

  -- Both parts of a full ring, the older one first.
  slice_both :
      2000 ≤ length es
      → slice l.ring (length es % 2000) (2000 - length es % 2000)
          ++ slice l.ring 0 (length es % 2000)
        ≡ drop (length es - 2000) es
  slice_both long =
      let n = length es in
      let wrap = n % 2000 in
      let older =
        slice_lem es l h wrap (2000 - wrap) (n - 2000) (n / 2000 - 1) (omega arith) (omega arith)
          (omega arith) (omega arith) in
      let newer =
        slice_lem es l h 0 wrap (n - wrap) (n / 2000) (omega arith) (omega arith) (omega arith)
          (omega arith) in
      let next : drop (n - wrap) es ≡ drop (2000 - wrap) (drop (n - 2000) es) =
        (let e : n - wrap ≡ n - 2000 + (2000 - wrap) = omega arith in
          rw e (sym (drop-drop (n - 2000) (2000 - wrap) es))) in
      rw (older, newer, next)
        (take-append-take (2000 - wrap) wrap (drop (n - 2000) es)
          ∙ take_all (drop (n - 2000) es) (2000 - wrap + wrap)
              (omega (arith, length-drop (n - 2000) es)))

  slice_last :
      2000 ≤ length es
      → k < 2000
      → slice_around l.ring ((length es % 2000 + (2000 - k)) % 2000) k ≡ drop (length es - k) es
  slice_last long few =
      slice_around_lem es l h ((length es % 2000 + (2000 - k)) % 2000) k (length es - k)
        (omega arith) (omega arith) (omega arith)
      ∙ take_all (drop (length es - k) es) k (omega (arith, length-drop (length es - k) es))

  -- Not more entries than places.
  recent_short : length es < 2000 → get_recent_entries k l ≡ drop (length es - min k 2000) es
  unfolding get_recent_entries
  recent_short short = ground (arith, h.index, slice_tail (length es - k), slice_tail 0)

  -- More, and all are asked for.
  recent_whole :
      2000 ≤ length es → 2000 ≤ k → get_recent_entries k l ≡ drop (length es - min k 2000) es
  unfolding get_recent_entries
  recent_whole long all = ground (arith, h.index, slice_both)

  -- More, and some are asked for.
  recent_around :
      2000 ≤ length es → k < 2000 → get_recent_entries k l ≡ drop (length es - min k 2000) es
  unfolding get_recent_entries
  recent_around long few = ground (arith, h.index, slice_last)

-- `GetRecentEntries` gives the last entries that were added, in their order: as many as it is asked for, but at
-- most 2000 and at most all. The ring was empty at first, and fewer than 2 ^ 64 entries are added.
pub get_recent_entries-add_all :
    (k : ℕ) (es : List LogEntry) (l : Logger)
    → l.ring_index ≡ 0
    → length es < u64_mod
    → get_recent_entries k (add_all es l) ≡ drop (length es - min k 2000) es
get_recent_entries-add_all k es l clear small =
    let h =
      add_all-Holds [] es l small
        (record { index = clear; entry = λ i below near. absurd (omega arith) }) in
    elim (Bool-cases (ltb (length es) 2000)) [
      | inl short ↦ recent_short k es (add_all es l) h (ground arith)
      | inr long ↦ elim (Bool-cases (ltb k 2000)) [
        | inl few ↦ recent_around k es (add_all es l) h (ground arith) (ground arith)
        | inr all ↦ recent_whole k es (add_all es l) h (ground arith) (ground arith)
      ]
    ]
