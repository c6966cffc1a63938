-- ===== src/Prelude/Texts.antt =====
-- Texts as lists of code units: equality, the last unit, and suffixes.
use Prim.Native.Nat.{ℕ, ◌-◌}
use mathlib.Core.Path.{◌≡◌, refl, ap, sym, ◌∙◌}
use mathlib.Core.Bool.{Bool, true, false, ◌&&◌}
use mathlib.Core.List.{List, [], ◌∷◌, ◌++◌}
use mathlib.Core.Option.{Option, none, some}
use native.Mathlib.Omega.{arith}
use tcp_redirector.Prelude.Lists.{length, drop, take, take-append-drop, length-append}
use tcp_redirector.Prelude.Tests.{◌==◌, ==_refl, ==_iff}

unfoldable pub text_eq : List ℕ → List ℕ → Bool
text_eq [] [] = true
text_eq [] (y ∷ ys) = false
text_eq (x ∷ xs) [] = false
text_eq (x ∷ xs) (y ∷ ys) = x == y && text_eq xs ys

pub text_eq_refl : (xs : List ℕ) → text_eq xs xs ≡ true
unfolding text_eq
text_eq_refl [] = refl
text_eq_refl (x ∷ xs) = ground (arith, text_eq_refl xs, ==_refl x)

pub text_eq-eq : (xs ys : List ℕ) → text_eq xs ys ≡ true → xs ≡ ys
unfolding text_eq
text_eq-eq [] [] h = refl
text_eq-eq [] (y ∷ ys) h = cc
text_eq-eq (x ∷ xs) [] h = cc
text_eq-eq (x ∷ xs) (y ∷ ys) h = ground (arith, text_eq-eq xs ys, ==_iff x y)

-- `text.back()`, and `text.substr(0, text.size() - 1)`.
unfoldable pub last? : List ℕ → Option ℕ
last? [] = none
last? (x ∷ []) = some x
last? (x ∷ y ∷ ys) = last? (y ∷ ys)

unfoldable pub init : List ℕ → List ℕ
init [] = []
init (x ∷ []) = []
init (x ∷ y ∷ ys) = x ∷ init (y ∷ ys)

pub init-last? : (xs : List ℕ) (c : ℕ) → last? xs ≡ some c → xs ≡ init xs ++ c ∷ []
unfolding last? init
init-last? [] c h = cc
init-last? (x ∷ []) c h = ground arith
init-last? (x ∷ y ∷ ys) c h = ap (λ t. x ∷ t) (init-last? (y ∷ ys) c h)

pub last?-snoc : (xs : List ℕ) (c : ℕ) → last? (xs ++ c ∷ []) ≡ some c
unfolding last?
last?-snoc [] c = refl
last?-snoc (x ∷ []) c = refl
last?-snoc (x ∷ y ∷ ys) c = last?-snoc (y ∷ ys) c

pub init-snoc : (xs : List ℕ) (c : ℕ) → init (xs ++ c ∷ []) ≡ xs
unfolding init
init-snoc [] c = refl
init-snoc (x ∷ []) c = refl
init-snoc (x ∷ y ∷ ys) c = ap (λ t. x ∷ t) (init-snoc (y ∷ ys) c)

-- `text.compare(text.size() - suffix.size(), suffix.size(), suffix) == 0`.
unfoldable pub ends_with_text : List ℕ → List ℕ → Bool
unfolding text_eq
ends_with_text suffix text = text_eq (drop (length text - length suffix) text) suffix

drop-length-append : (xs ys : List ℕ) → drop (length xs) (xs ++ ys) ≡ ys
drop-length-append [] ys = refl
drop-length-append (x ∷ xs) ys = drop-length-append xs ys

pub ends_with_text-append : (pre suffix : List ℕ) → ends_with_text suffix (pre ++ suffix) ≡ true
unfolding ends_with_text
ends_with_text-append pre suffix =
    let e : length (pre ++ suffix) - length suffix ≡ length pre =
      omega (arith, length-append pre suffix) in
    rw (e, drop-length-append pre suffix) (text_eq_refl suffix)

pub ends_with_text-split :
    (suffix text : List ℕ)
    → ends_with_text suffix text ≡ true
    → (pre : List ℕ) × (text ≡ pre ++ suffix)
unfolding ends_with_text
ends_with_text-split suffix text h =
    let n = length text - length suffix in
    (
      take n text,
      sym (take-append-drop n text)
          ∙ ap (λ t. take n text ++ t) (text_eq-eq (drop n text) suffix h),
    )
