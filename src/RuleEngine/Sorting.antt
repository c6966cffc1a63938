-- ===== src/RuleEngine/Sorting.antt =====
-- An insertion sort in the place of `std::sort`, with what the standard says of it.
use mathlib.Core.List.{Perm}
use mathlib.Core.List.Perm
use tcp_redirector.Prelude.{
  ◌≡◌, Bool, true, List, [], ◌∷◌, All, if◌then◌else◌, leb_signed32, arith, Bool-cases, inl, inr,
}
use tcp_redirector.RuleEngine.{Rule, Sorter, IsSorted}

abbrev before : Rule → Rule → Bool
before r q = leb_signed32 r.priority q.priority

insert : Rule → List Rule → List Rule
insert r [] = r ∷ []
insert r (q ∷ qs) = let rest = insert r qs in if before r q then r ∷ q ∷ qs else q ∷ rest

insertion_sort : List Rule → List Rule
unfolding insert
insertion_sort [] = []
insertion_sort (r ∷ rs) = insert r (insertion_sort rs)

insert-Perm : (r : Rule) (qs : List Rule) → Perm (insert r qs) (r ∷ qs)
unfolding insert
insert-Perm r [] = Perm.refl (r ∷ [])
insert-Perm r (q ∷ qs) = elim (Bool-cases (before r q)) [
  | inl e ↦ rw e (Perm.refl (r ∷ q ∷ qs))
  | inr e ↦ rw e (Perm.trans (Perm.cons q (insert-Perm r qs)) (Perm.swap r q qs))
]

insertion_sort-Perm : (rs : List Rule) → Perm (insertion_sort rs) rs
unfolding insertion_sort
insertion_sort-Perm [] = Perm.refl []
insertion_sort-Perm (r ∷ rs) =
    Perm.trans (insert-Perm r (insertion_sort rs)) (Perm.cons r (insertion_sort-Perm rs))

insert-All : (P : Rule → Type 0) (r : Rule) (qs : List Rule) → P r → All P qs → All P (insert r qs)
unfolding insert
insert-All P r [] p h = (p, tt)
insert-All P r (q ∷ qs) p h = elim (Bool-cases (before r q)) [
  | inl e ↦ rw e (p, h)
  | inr e ↦ rw e (h.0, insert-All P r qs p h.1)
]

All-later :
    (r q : Rule) (qs : List Rule)
    → before r q ≡ true
    → All (λ x. before q x ≡ true) qs
    → All (λ x. before r x ≡ true) qs
All-later r q [] e h = tt
All-later r q (x ∷ qs) e h = (ground (arith, e, h.0), All-later r q qs e h.1)

insert-IsSorted : (r : Rule) (qs : List Rule) → IsSorted qs → IsSorted (insert r qs)
unfolding insert
insert-IsSorted r [] h = (tt, tt)
insert-IsSorted r (q ∷ qs) h = elim (Bool-cases (before r q)) [
  | inl e ↦ rw e ((e, All-later r q qs e h.0), h)
  | inr e ↦
      let back : before q r ≡ true = ground (arith, e) in
      rw e (insert-All (λ x. before q x ≡ true) r qs back h.0, insert-IsSorted r qs h.1)
]

insertion_sort-IsSorted : (rs : List Rule) → IsSorted (insertion_sort rs)
unfolding insertion_sort
insertion_sort-IsSorted [] = tt
insertion_sort-IsSorted (r ∷ rs) =
    insert-IsSorted r (insertion_sort rs) (insertion_sort-IsSorted rs)

pub insertion_sorter : Sorter
insertion_sorter = record {
  sort = insertion_sort;
  sort-perm = insertion_sort-Perm;
  sort-IsSorted = insertion_sort-IsSorted;
}
