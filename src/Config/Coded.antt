-- ===== src/Config/Coded.antt =====
-- A JSON library on lists of numbers, which meets the laws of Config.Json: a value is a tag and what follows, a
-- field of an object or an item of an array has its length before it.
use tcp_redirector.Prelude.{
  ℕ, zero, suc, ◌≡◌, Bool, true, false, List, [], ◌∷◌, ◌++◌, Option, none, some, length, take, refl,
  ap, arith, ◌==◌, if◌then◌else◌,
}
use tcp_redirector.Config.Json.{JsonApi, IsLawful, Key, code}

-- The value of a key, after so many numbers that are passed over.
unfoldable pub seek : ℕ → List ℕ → Key → Option (List ℕ)
seek (suc n) (x ∷ xs) k = seek n xs k
seek zero (tag ∷ c ∷ n ∷ rest) k =
    let later = seek n rest k in
    if tag == 5 then (if c == code k then some (take n rest) else later) else none
seek _ _ k = none

-- The items of an array.
unfoldable pub items : ℕ → List ℕ → List (List ℕ)
items (suc n) (x ∷ xs) = items n xs
items zero (n ∷ rest) = take n rest ∷ items n rest
items _ [] = []

unfoldable pub gather_items : List (List ℕ) → List ℕ
gather_items [] = []
gather_items (j ∷ js) = length j ∷ (j ++ gather_items js)

unfoldable pub starts : ℕ → List ℕ → Bool
starts tag [] = false
starts tag (x ∷ xs) = x == tag

unfoldable pub text_in : List ℕ → Option (List ℕ)
text_in [] = none
text_in (tag ∷ xs) = if tag == 1 then some xs else none

unfoldable pub number_in : ℕ → List ℕ → Option ℕ
number_in tag (x ∷ n ∷ []) = if x == tag then some n else none
number_in tag _ = none

unfoldable pub items_in : List ℕ → List (List ℕ)
items_in [] = []
items_in (tag ∷ xs) = items 0 xs

unfoldable pub flag_in : List ℕ → Option Bool
flag_in j = elim (number_in 3 j) [ none ↦ none | some n ↦ some (n == 1) ]

unfoldable pub coded_json : JsonApi
coded_json = record {
  Json = List ℕ;
  null = [];
  text = λ t. 1 ∷ t;
  number = λ n. 2 ∷ n ∷ [];
  flag = λ b. 3 ∷ (if b then 1 else 0) ∷ [];
  array = λ js. 6 ∷ gather_items js;
  put = λ j k v. 5 ∷ code k ∷ length v ∷ (v ++ j);
  is_null = λ j. elim j [ [] ↦ true | x ∷ xs ↦ false ];
  is_object = starts 5;
  field = λ j k. seek 0 j k;
  get_text = text_in;
  get_number = number_in 2;
  get_flag = flag_in;
  elements = items_in;
  dump = λ j. some j;
  parse = λ t. some t;
}

take_own : (xs ys : List ℕ) → take (length xs) (xs ++ ys) ≡ xs
take_own [] ys = refl
take_own (x ∷ xs) ys = ap (λ zs. x ∷ zs) (take_own xs ys)

seek-append : (xs ys : List ℕ) (k : Key) → seek (length xs) (xs ++ ys) k ≡ seek 0 ys k
unfolding seek
seek-append [] ys k = refl
seek-append (x ∷ xs) ys k = seek-append xs ys k

items-append : (xs ys : List ℕ) → items (length xs) (xs ++ ys) ≡ items 0 ys
unfolding items
items-append [] ys = refl
items-append (x ∷ xs) ys = items-append xs ys

items-gather_items : (js : List (List ℕ)) → items 0 (gather_items js) ≡ js
unfolding items gather_items
items-gather_items [] = refl
items-gather_items (j ∷ js) =
    rw (take_own j (gather_items js), items-append j (gather_items js))
      (ap (λ zs. j ∷ zs) (items-gather_items js))

flag_in-flag : (b : Bool) → flag_in (3 ∷ (if b then 1 else 0) ∷ []) ≡ some b
unfolding flag_in number_in
flag_in-flag true = refl
flag_in-flag false = refl

pub coded_json-IsLawful : IsLawful coded_json
unfolding coded_json seek starts text_in number_in flag_in items_in
coded_json-IsLawful = record {
  field-null = λ k. refl;
  field-put = λ j k l v. rw (take_own v j, seek-append v j l) refl;
  is_object-put = λ j k v. refl;
  get_text-text = λ t. refl;
  get_number-number = λ n. refl;
  get_flag-flag = flag_in-flag;
  elements-array = items-gather_items;
  parse-dump = λ j t e. ground (arith, e);
}
