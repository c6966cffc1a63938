-- ===== src/Prelude/Search.antt =====
-- Texts as lists of code units: prefixes, substrings, and NUL-terminated arrays.
use Prim.Native.Nat.{ℕ, zero, suc}
use mathlib.Core.Path.{◌≡◌, refl, ap}
use mathlib.Core.Logic.{inl, inr}
use mathlib.Core.Bool.{Bool, true, false, ◌&&◌, ◌||◌}
use mathlib.Core.List.{List, [], ◌∷◌, ◌++◌}
use mathlib.Core.Option.{Option, none, some}
use native.Mathlib.Omega.{arith}
use tcp_redirector.Prelude.Tests.{◌==◌, ==_refl, ==_iff, Bool-cases}

unfoldable pub starts_with : List ℕ → List ℕ → Bool
starts_with [] ys = true
starts_with (x ∷ xs) [] = false
starts_with (x ∷ xs) (y ∷ ys) = x == y && starts_with xs ys

-- Whether the first text stands somewhere in the second.
unfoldable pub contains : List ℕ → List ℕ → Bool
unfolding starts_with
contains xs [] = starts_with xs []
contains xs (y ∷ ys) = starts_with xs (y ∷ ys) || contains xs ys

-- The text of an array that ends at the first NUL; `none` if it holds no NUL.
unfoldable pub c_str : List ℕ → Option (List ℕ)
c_str [] = none
c_str (zero ∷ xs) = some []
c_str (suc c ∷ xs) = elim (c_str xs) [ none ↦ none | some t ↦ some (suc c ∷ t) ]

pub starts_with-append : (xs ys : List ℕ) → starts_with xs (xs ++ ys) ≡ true
unfolding starts_with
starts_with-append [] ys = refl
starts_with-append (x ∷ xs) ys = ground (arith, starts_with-append xs ys, ==_refl x)

pub starts_with-split :
    (xs ys : List ℕ) → starts_with xs ys ≡ true → (post : List ℕ) × (ys ≡ xs ++ post)
unfolding starts_with
starts_with-split [] ys h = (ys, refl)
starts_with-split (x ∷ xs) [] h = cc
starts_with-split (x ∷ xs) (y ∷ ys) h =
    let (post, e) = starts_with-split xs ys (ground arith) in (post, ground (arith, ==_iff x y))

-- A text occurs in another exactly if it can be split around it.
abbrev pub Occurs : List ℕ → List ℕ → Type 0
Occurs xs ys = (pre : List ℕ) × (post : List ℕ) × (ys ≡ pre ++ xs ++ post)

pub contains-Occurs : (xs ys : List ℕ) → contains xs ys ≡ true → Occurs xs ys
unfolding contains
contains-Occurs xs [] h = let (post, e) = starts_with-split xs [] h in ([], post, e)
contains-Occurs xs (y ∷ ys) h = elim (Bool-cases (starts_with xs (y ∷ ys))) [
  | inl e ↦ let (post, p) = starts_with-split xs (y ∷ ys) e in ([], post, p)
  | inr e ↦
      let (pre, post, p) = contains-Occurs xs ys (ground arith) in
      (y ∷ pre, post, ap (λ t. y ∷ t) p)
]

contains-append : (pre xs post : List ℕ) → contains xs (pre ++ xs ++ post) ≡ true
unfolding contains
contains-append [] [] [] = refl
contains-append [] [] (y ∷ post) = refl
contains-append [] (x ∷ xs) post = ground (arith, starts_with-append (x ∷ xs) post)
contains-append (y ∷ pre) xs post = ground (arith, contains-append pre xs post)

pub Occurs-contains : (xs ys : List ℕ) → Occurs xs ys → contains xs ys ≡ true
Occurs-contains xs ys (pre, post, e) = rw e (contains-append pre xs post)
