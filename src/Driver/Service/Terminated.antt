-- ===== src/Driver/Service/Terminated.antt =====
-- RedirectService.c: the WCHAR arrays that `wcsstr` reads end with a NUL.
use tcp_redirector.Prelude.{
  ℕ, zero, suc, ◌<◌, ◌≡◌, ◌⊎◌, refl, List, [], ◌∷◌, ◌++◌, Option, none, some, replicate, All,
  if◌then◌else◌, arith, inl, inr, Bool, true, Bool-cases, contains, c_str,
}
use tcp_redirector.Driver.Entities.{
  RuleEntry, RuleAction, permit, Block, ProcessIdentity, max_process_path_length,
  max_process_name_length, nt_success,
}
use tcp_redirector.Driver.Service.{
  RedirectService, match_from, match_rule, wcsstr_found, rule_text, ProcessApi, identify_process,
  copy_name, zero_name, process_name_of, process_path_of,
}

-- The array holds a NUL, and so a text.
abbrev pub IsTerminated : List ℕ → Type 0
IsTerminated array = (text : List ℕ) × (c_str array ≡ some text)

abbrev pub HasPattern : Block RuleEntry → Type 0
HasPattern b = (b.body.is_wildcard ≡ true) ⊎ IsTerminated b.body.pattern

wcsstr_found-total :
    (text pattern : List ℕ)
    → IsTerminated text
    → IsTerminated pattern
    → (found : Bool) × (wcsstr_found text pattern ≡ some found)
unfolding wcsstr_found
wcsstr_found-total text pattern (t, e) (p, f) = (contains p t, ground arith)

rule_text-IsTerminated :
    (rule : RuleEntry) (process : ProcessIdentity)
    → IsTerminated process.process_name
    → IsTerminated process.process_path
    → IsTerminated (rule_text rule process)
unfolding rule_text
rule_text-IsTerminated rule process n p = elim (Bool-cases rule.is_path_rule) [
  | inl e ↦ rw e p
  | inr e ↦ rw e n
]

match_from_total :
    (rules : List (Block RuleEntry)) (process : ProcessIdentity)
    → IsTerminated process.process_name
    → IsTerminated process.process_path
    → All HasPattern rules
    → (a : RuleAction) × (match_from rules process ≡ some a)
unfolding match_from
match_from_total [] process n p h = (permit, refl)
match_from_total (b ∷ rules) process n p (inl wild, h) = (b.body.action, ground arith)
match_from_total (b ∷ rules) process n p (inr pat, h) =
    let (a, rest) = match_from_total rules process n p h in
    let text = rule_text-IsTerminated b.body process n p in
    let (found, e) = wcsstr_found-total (rule_text b.body process) b.body.pattern text pat in
    (if b.body.is_wildcard then b.body.action else if found then b.body.action else a, ground arith)

c_str-zeros : (n : ℕ) → 0 < n → IsTerminated (replicate n 0)
unfolding c_str
c_str-zeros zero h = absurd (omega arith)
c_str-zeros (suc n) h = ([], refl)

c_str-append-zeros : (xs : List ℕ) (n : ℕ) → 0 < n → IsTerminated (xs ++ replicate n 0)
unfolding c_str
c_str-append-zeros [] n h = c_str-zeros n h
c_str-append-zeros (zero ∷ xs) n h = ([], refl)
c_str-append-zeros (suc c ∷ xs) n h = let (t, e) = c_str-append-zeros xs n h in (suc c ∷ t, rw e)

copy_name-IsTerminated :
    (size : ℕ) (source : List ℕ) → 0 < size → IsTerminated (copy_name size source)
unfolding copy_name
copy_name-IsTerminated size source h = c_str-append-zeros _ _ (omega arith)

process_name_of-IsTerminated : (image : Option (List ℕ)) → IsTerminated (process_name_of image)
unfolding process_name_of zero_name
process_name_of-IsTerminated none = c_str-zeros max_process_name_length (omega arith)
process_name_of-IsTerminated (some image) =
    copy_name-IsTerminated max_process_name_length image (omega arith)

process_path_of-IsTerminated : (r : ℕ × List ℕ) → IsTerminated (process_path_of r)
unfolding process_path_of zero_name
process_path_of-IsTerminated (status, image) = elim (Bool-cases (nt_success status)) [
  | inl e ↦ rw e (copy_name-IsTerminated max_process_path_length image (omega arith))
  | inr e ↦ rw e (c_str-zeros max_process_path_length (omega arith))
]

-- Whatever the kernel reports, IdentifyProcess leaves a name and a path that end within their arrays.
pub identify_process-IsTerminated :
    (api : ProcessApi) (pid : ℕ)
    → let r = identify_process api pid in
      IsTerminated r.0.process_name × IsTerminated r.0.process_path
unfolding identify_process zero_name
identify_process-IsTerminated api pid =
    elim (Bool-cases (nt_success (api.lookup_process_by_id pid))) [
      | inl e ↦ rw e (
        process_name_of-IsTerminated (api.image_file_name pid),
        process_path_of-IsTerminated (api.locate_image_name pid),
      )
      | inr e ↦ rw e (
        c_str-zeros max_process_name_length (omega arith),
        c_str-zeros max_process_path_length (omega arith),
      )
    ]

-- With rules whose patterns end within their arrays, a match of an identified process reads no array
-- past its end, and gives an action.
pub match_rule_total :
    (s : RedirectService) (api : ProcessApi) (pid : ℕ)
    → All HasPattern s.rules_list
    → (a : RuleAction) × (match_rule s (identify_process api pid).0 ≡ some a)
match_rule_total s api pid h =
    let (n, p) = identify_process-IsTerminated api pid in
    unfold match_rule in match_from_total s.rules_list (identify_process api pid).0 n p h
