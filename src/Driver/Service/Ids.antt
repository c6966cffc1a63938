-- ===== src/Driver/Service/Ids.antt =====
-- RedirectService.c: the identifiers that `RedirectService_Enqueue` gives out.
use tcp_redirector.Prelude.{
  ℕ, zero, suc, ◌+◌, ◌%◌, ◌<◌, ◌≤◌, ◌≡◌, ◌≢◌, refl, List, [], ◌∷◌, ◌++◌, some, length, drop,
  get_elem?, add32, sign_extend, u32_mod, arith,
}
use tcp_redirector.Driver.Entities.{RedirectInfo, Block, max_redirect_queue_size}

-- The blocks carry the identifiers that follow `k`, and the last one is `next`.
abbrev pub Consecutive : ℕ → List (Block RedirectInfo) → ℕ → Type 0
Consecutive k [] next = k ≡ next
Consecutive k (b ∷ q) next =
    (b.body.redirect_id ≡ sign_extend (add32 k 1)) × Consecutive (add32 k 1) q next

abbrev pub HasIds : List (Block RedirectInfo) → ℕ → Type 0
HasIds q next = (k : ℕ) × (k < u32_mod) × Consecutive k q next

pub Consecutive-snoc :
    (k : ℕ) (q : List (Block RedirectInfo)) (next : ℕ) (b : Block RedirectInfo)
    → Consecutive k q next
    → b.body.redirect_id ≡ sign_extend (add32 next 1)
    → Consecutive k (q ++ b ∷ []) (add32 next 1)
Consecutive-snoc k [] next b h e = rw h (e, refl)
Consecutive-snoc k (c ∷ q) next b h e = (h.0, Consecutive-snoc (add32 k 1) q next b h.1 e)

pub Consecutive-drop :
    (n k : ℕ) (q : List (Block RedirectInfo)) (next : ℕ)
    → k < u32_mod
    → Consecutive k q next
    → HasIds (drop n q) next
Consecutive-drop zero k q next w h = (k, w, h)
Consecutive-drop (suc n) k [] next w h = (k, w, h)
Consecutive-drop (suc n) k (b ∷ q) next w h =
    Consecutive-drop n (add32 k 1) q next (omega arith) h.1

-- The identifier of the block at place `i`.
Consecutive-get_elem? :
    (i k : ℕ) (q : List (Block RedirectInfo)) (next : ℕ) (b : Block RedirectInfo)
    → k < u32_mod
    → Consecutive k q next
    → get_elem? q i ≡ some b
    → b.body.redirect_id ≡ sign_extend ((k + i + 1) % u32_mod)
Consecutive-get_elem? i k [] next b w h e = cc
Consecutive-get_elem? zero k (c ∷ q) next b w h e = ground (arith, h.0)
Consecutive-get_elem? (suc i) k (c ∷ q) next b w h e =
    ground (arith, Consecutive-get_elem? i (add32 k 1) q next b (omega arith) h.1 e)

get_elem?-lt {ℓ} :
    {A : Type ℓ} (xs : List A) (i : ℕ) (x : A) → get_elem? xs i ≡ some x → i < length xs
get_elem?-lt [] i x e = cc
get_elem?-lt (y ∷ xs) zero x e = omega arith
get_elem?-lt (y ∷ xs) (suc i) x e = omega (arith, get_elem?-lt xs i x e)

-- Short windows of the counter give each place its own identifier, also across a wrap.
sign_extend-injective :
    (k i j : ℕ)
    → i ≢ j
    → i < max_redirect_queue_size
    → j < max_redirect_queue_size
    → sign_extend ((k + i + 1) % u32_mod) ≢ sign_extend ((k + j + 1) % u32_mod)
sign_extend-injective k i j ne hi hj = ground arith

-- At most 4096 blocks with consecutive identifiers have pairwise different ones.
pub HasIds-injective :
    (q : List (Block RedirectInfo)) (next i j : ℕ) (b c : Block RedirectInfo)
    → HasIds q next
    → length q ≤ max_redirect_queue_size
    → i ≢ j
    → get_elem? q i ≡ some b
    → get_elem? q j ≡ some c
    → b.body.redirect_id ≢ c.body.redirect_id
HasIds-injective q next i j b c (k, w, ids) bound ne hb hc same =
    sign_extend-injective k i j ne (omega (arith, get_elem?-lt q i b hb))
      (omega (arith, get_elem?-lt q j c hc))
      (cc (
        same,
        Consecutive-get_elem? i k q next b w ids hb,
        Consecutive-get_elem? j k q next c w ids hc,
      ))
