-- ===== src/RuleEngine/Wildcard.antt =====
-- RuleEngine.h: `WildcardMatch` against a description of the patterns.
use tcp_redirector.Prelude.{
  ℕ, ◌≡◌, ◌↔◌, ◌⊎◌, ◌≢◌, refl, ap, sym, ◌∙◌, inl, inr, Bool, true, false, ◌&&◌, List, [], ◌∷◌, ◌++◌,
  All, length, leb, ==_iff, arith, Bool-cases, Option-cases, contains, text_eq, last?, init, Occurs,
  contains-Occurs, Occurs-contains, starts_with-append, starts_with-split, text_eq-eq, init-last?,
  last?-snoc, init-snoc, ends_with_text-append, ends_with_text-split, append_assoc, append-nil,
  length-append,
}
use tcp_redirector.RuleEngine.{star, front_is_star, back_is_star, tail, wildcard_match}

-- The texts that a pattern stands for: any text for `*`, one in which the pattern itself occurs, one
-- in which `m` occurs for `*m*`, one that begins with `p` for `p*`, one that ends with `s` for `*s`.
abbrev pub Accepts : List ℕ → List ℕ → Type 0
Accepts pattern text =
    (pattern ≡ star ∷ [])
    ⊎ Occurs pattern text
    ⊎ ((m : List ℕ) × (pattern ≡ star ∷ (m ++ star ∷ [])) × Occurs m text)
    ⊎ ((p : List ℕ) × (rest : List ℕ) × (pattern ≡ p ++ star ∷ []) × (text ≡ p ++ rest))
    ⊎ ((s : List ℕ) × (rest : List ℕ) × (pattern ≡ star ∷ s) × (text ≡ rest ++ s))

front-star : (p : List ℕ) → front_is_star p ≡ true → p ≡ star ∷ tail p
unfolding front_is_star tail
front-star [] h = cc
front-star (c ∷ cs) h = ground (arith, ==_iff c star)

back-star : (p : List ℕ) → back_is_star p ≡ true → p ≡ init p ++ star ∷ []
unfolding back_is_star
back-star p h = elim (Option-cases (last? p)) [
  | inl e ↦ absurd (ground arith)
  | inr (c, e) ↦ init-last? p star (ground (arith, ==_iff c star))
]

back-snoc : (p : List ℕ) → back_is_star (p ++ star ∷ []) ≡ true
unfolding back_is_star
back-snoc p = ground (arith, last?-snoc p star)

back-tail :
    (c d : ℕ) (cs : List ℕ)
    → back_is_star (c ∷ d ∷ cs) ≡ true
    → back_is_star (tail (c ∷ d ∷ cs)) ≡ true
unfolding back_is_star tail
back-tail c d cs b = b

both-stars :
    (p : List ℕ)
    → leb 2 (length p) ≡ true
    → front_is_star p ≡ true
    → back_is_star p ≡ true
    → p ≡ star ∷ (init (tail p) ++ star ∷ [])
both-stars [] l f b = cc
both-stars (c ∷ []) l f b = cc
both-stars (c ∷ d ∷ cs) l f b =
    front-star (c ∷ d ∷ cs) f
    ∙ ap (λ t. star ∷ t) (back-star (tail (c ∷ d ∷ cs)) (back-tail c d cs b))

abbrev both : List ℕ → Bool
both p = leb 2 (length p) && (front_is_star p && back_is_star p)

-- The part of `WildcardMatch` below the substring test.
starred :
    (p t : List ℕ)
    → text_eq p (star ∷ []) ≡ false
    → contains p t ≡ false
    → wildcard_match p t ≡ true
    → Accepts p t
unfolding wildcard_match
starred p t e0 e1 h = elim (Bool-cases (both p)) [
  | inl e2 ↦
      let shape = both-stars p (ground arith) (ground arith) (ground arith) in
      inr (inr (inl (init (tail p), shape, contains-Occurs (init (tail p)) t (ground arith))))
  | inr e2 ↦ elim (Bool-cases (back_is_star p)) [
    | inl e3 ↦
        let (rest, e) = starts_with-split (init p) t (ground arith) in
        inr (inr (inr (inl (init p, rest, back-star p e3, e))))
    | inr e3 ↦ elim (Bool-cases (front_is_star p && leb (length (tail p)) (length t))) [
      | inl e4 ↦
          let (rest, e) = ends_with_text-split (tail p) t (ground arith) in
          inr (inr (inr (inr (tail p, rest, front-star p (ground arith), e))))
      | inr e4 ↦
          let e : p ≡ t = text_eq-eq p t (ground arith) in
          inr (inl ([], [], sym e ∙ sym (append-nil p)))
    ]
  ]
]

-- The pattern matches only texts that it stands for.
wildcard_match-Accepts :
    (pattern text : List ℕ) → wildcard_match pattern text ≡ true → Accepts pattern text
unfolding wildcard_match
wildcard_match-Accepts p t h = elim (Bool-cases (text_eq p (star ∷ []))) [
  | inl e ↦ inl (text_eq-eq p (star ∷ []) e)
  | inr e0 ↦ elim (Bool-cases (contains p t)) [
    | inl e ↦ inr (inl (contains-Occurs p t e))
    | inr e1 ↦ starred p t e0 e1 h
  ]
]

-- A pattern matches every text that it stands for.

Accepts-star : (t : List ℕ) → wildcard_match (star ∷ []) t ≡ true
unfolding wildcard_match
Accepts-star t = refl

Accepts-middle : (m t : List ℕ) → Occurs m t → wildcard_match (star ∷ (m ++ star ∷ [])) t ≡ true
unfolding wildcard_match front_is_star tail
Accepts-middle m t o = ground (
  arith,
  length-append m (star ∷ []),
  back-snoc (star ∷ m),
  init-snoc m star,
  Occurs-contains m t o,
)

Accepts-front : (p rest : List ℕ) → wildcard_match (p ++ star ∷ []) (p ++ rest) ≡ true
unfolding wildcard_match front_is_star tail
Accepts-front [] rest = refl
Accepts-front (c ∷ m) rest = ground (
  arith,
  Occurs-contains m (c ∷ (m ++ rest)) (c ∷ [], rest, refl),
  back-snoc (c ∷ m),
  init-snoc m star,
  init-snoc (c ∷ m) star,
  starts_with-append (c ∷ m) rest,
)

Accepts-back : (s rest : List ℕ) → wildcard_match (star ∷ s) (rest ++ s) ≡ true
unfolding wildcard_match front_is_star tail
Accepts-back [] rest = refl
Accepts-back (d ∷ cs) rest = elim (Bool-cases (back_is_star (d ∷ cs))) [
  | inl b ↦
      let e : rest ++ d ∷ cs ≡ rest ++ init (d ∷ cs) ++ star ∷ [] =
        ap (λ t. rest ++ t) (back-star (d ∷ cs) b)
        ∙ sym (append_assoc rest (init (d ∷ cs)) (star ∷ [])) in
      ground (
        arith,
        length-append rest (d ∷ cs),
        Occurs-contains (init (d ∷ cs)) (rest ++ d ∷ cs) (rest, star ∷ [], e),
      )
  | inr b ↦ ground (arith, ends_with_text-append rest (d ∷ cs), length-append rest (d ∷ cs))
]

pub Accepts-wildcard_match :
    (pattern text : List ℕ) → Accepts pattern text → wildcard_match pattern text ≡ true
Accepts-wildcard_match p t (inl e) = rw e (Accepts-star t)
Accepts-wildcard_match p t (inr (inl o)) =
    unfold wildcard_match in ground (arith, Occurs-contains p t o)
Accepts-wildcard_match p t (inr (inr (inl (m, e, o)))) = rw e (Accepts-middle m t o)
Accepts-wildcard_match p t (inr (inr (inr (inl (q, rest, e, f))))) =
    rw (e, f) (Accepts-front q rest)
Accepts-wildcard_match p t (inr (inr (inr (inr (s, rest, e, f))))) = rw (e, f) (Accepts-back s rest)

-- `WildcardMatch` accepts exactly the texts that the pattern stands for: every text for `*`; else those
-- in which the pattern itself occurs; and with its stars those in which `m` occurs for `*m*`, that begin
-- with `p` for `p*`, and that end with `s` for `*s`.
pub wildcard_match_iff :
    (pattern text : List ℕ) → (wildcard_match pattern text ≡ true) ↔ Accepts pattern text
wildcard_match_iff p t = (wildcard_match-Accepts p t, Accepts-wildcard_match p t)

text_eq-contains : (p t : List ℕ) → text_eq p t ≡ true → contains p t ≡ true
text_eq-contains p t h = Occurs-contains p t ([], [], sym (text_eq-eq p t h) ∙ sym (append-nil p))

-- No unit of the text is a star.
abbrev pub NoStar : List ℕ → Type 0
NoStar text = All (λ c. c ≢ star) text

NoStar-front : (p : List ℕ) → NoStar p → front_is_star p ≡ false
unfolding front_is_star
NoStar-front [] h = refl
NoStar-front (c ∷ cs) h = ground (arith, h.0, ==_iff c star)

NoStar-back : (p : List ℕ) → NoStar p → back_is_star p ≡ false
unfolding back_is_star last?
NoStar-back [] h = refl
NoStar-back (c ∷ []) h = ground (arith, h.0, ==_iff c star)
NoStar-back (c ∷ d ∷ cs) h = NoStar-back (d ∷ cs) h.1

-- A pattern without stars matches every text in which it occurs, and no other: the match is not exact.
pub wildcard_match_plain :
    (pattern text : List ℕ) → NoStar pattern → wildcard_match pattern text ≡ contains pattern text
unfolding wildcard_match
wildcard_match_plain [] t h = ground (arith, Occurs-contains [] t ([], t, refl))
wildcard_match_plain (c ∷ cs) t h =
    ground (arith, h.0, ==_iff c star, NoStar-back (c ∷ cs) h, text_eq-contains (c ∷ cs) t)
