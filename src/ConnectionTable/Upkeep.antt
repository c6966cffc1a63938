-- ===== src/ConnectionTable/Upkeep.antt =====
-- ConnectionTable.h: every method keeps the table valid.
use mathlib.Core.Path.{subst}
use native.Mathlib.Nat.{mod-lt}
use tcp_redirector.Prelude.{
  ℕ, suc, ◌+◌, ◌<◌, ◌≡◌, refl, ◌∙◌, List, [], ◌∷◌, Option, none, some, length, length-set, All, inl,
  inr, ltb, ltb→lt, if◌then◌else◌, arith, Option-cases, Bool-cases, u32_mod, add32, dec32,
}
use tcp_redirector.ConnectionTable.{
  ConnectionEntry, ConnectionTable, path_size, new_entry, update_key, change_live, remove_port,
  find_live, hash, chain, set_chain, add, remove, set_process_info, add_bytes, with_pid,
  with_process, with_bytes,
}
use tcp_redirector.ConnectionTable.Chains.{put, removed}
use tcp_redirector.ConnectionTable.Placement.{
  IsValid, Good, bucket-set, bucket-get, total-set, put-Good, removed-Good, change_live-Good,
  length-change_live, length-update, length-remove_port,
}

pub put-none :
    (p src ip dest config : ℕ) (es : List ConnectionEntry)
    → update_key p src ip dest config es ≡ none
    → put p src ip dest config es ≡ new_entry p src ip dest config ∷ es
put-none p src ip dest config es e = rw (e, put) refl

pub put-some :
    (p src ip dest config : ℕ) (es fs : List ConnectionEntry)
    → update_key p src ip dest config es ≡ some fs
    → put p src ip dest config es ≡ fs
put-some p src ip dest config es fs e = rw (e, put) refl

pub removed-some :
    (p : ℕ) (es fs : List ConnectionEntry) → remove_port p es ≡ some fs → removed p es ≡ fs
removed-some p es fs e = rw (e, removed) refl

pub removed-none : (p : ℕ) (es : List ConnectionEntry) → remove_port p es ≡ none → removed p es ≡ es
removed-none p es e = rw (e, removed) refl

module _ (size : ℕ) (some_buckets : 0 < size) where
  pub hash-lt : (t : ConnectionTable) (p : ℕ) → IsValid size t → hash size p < length t.table
  hash-lt t p v = omega (arith, mod-lt p some_buckets, v.buckets)

  pub chain-Good :
      (t : ConnectionTable) (p : ℕ)
      → IsValid size t
      → All (Good size (hash size p)) (chain size t p)
  chain-Good t p v = bucket-get size (hash size p) t.table v.placed

  set_chain-IsValid :
      (t : ConnectionTable) (p n : ℕ) (es : List ConnectionEntry)
      → IsValid size t
      → All (Good size (hash size p)) es
      → n + length (chain size t p) ≡ t.tracked_count + length es
      → n < u32_mod
      → IsValid size (record (set_chain size t p es) { tracked_count = n })
  set_chain-IsValid t p n es v g c b = record {
    buckets = length-set t.table (hash size p) es ∙ v.buckets;
    placed = bucket-set size (hash size p) t.table es v.placed g;
    counted = omega (arith, total-set (hash size p) t.table es (hash-lt t p v), v.counted);
    bounded = b;
  }

  -- With at least one bucket, `Add` keeps a valid table valid, unless its count is at its maximum.
  pub add-IsValid :
      (t : ConnectionTable) (p src ip dest config : ℕ)
      → IsValid size t
      → suc t.tracked_count < u32_mod
      → IsValid size (add size t p src ip dest config)
  unfolding add
  add-IsValid t p src ip dest config v room =
      let es = chain size t p in
      let g = put-Good size (hash size p) p src ip dest config es refl (chain-Good t p v) in
      elim (Option-cases (update_key p src ip dest config es)) [
        | inl e ↦
            rw (e, add)
              (set_chain-IsValid t p (add32 t.tracked_count 1) (new_entry p src ip dest config ∷ es)
                v (subst (All (Good size (hash size p))) (put-none p src ip dest config es e) g)
                (omega arith) (omega arith))
        | inr (fs, e) ↦
            rw (e, add)
              (set_chain-IsValid t p t.tracked_count fs v
                (subst (All (Good size (hash size p))) (put-some p src ip dest config es fs e) g)
                (omega (arith, length-update p src ip dest config es fs e)) v.bounded)
      ]

  -- With at least one bucket, `Remove` keeps a valid table valid.
  pub remove-IsValid :
      (t : ConnectionTable) (p : ℕ) → IsValid size t → IsValid size (remove size t p)
  unfolding remove
  remove-IsValid t p v =
      let es = chain size t p in
      let g = removed-Good size (hash size p) p es (chain-Good t p v) in
      elim (Option-cases (remove_port p es)) [
        | inl e ↦ rw (e, remove) v
        | inr (fs, e) ↦
            let one : length es ≡ suc (length fs) = length-remove_port p es fs e in
            let pos : 0 < t.tracked_count =
              omega (arith, total-set (hash size p) t.table [] (hash-lt t p v), v.counted) in
            rw (e, remove)
              (set_chain-IsValid t p
                (if ltb 0 t.tracked_count then dec32 t.tracked_count else t.tracked_count) fs v
                (subst (All (Good size (hash size p))) (removed-some p es fs e) g)
                (ground (arith, one, pos)) (ground (arith, pos, v.bounded)))
      ]

  change-IsValid :
      (t : ConnectionTable) (p : ℕ) (f : ConnectionEntry → ConnectionEntry)
      → ((e : ConnectionEntry) → Good size (hash size p) e → Good size (hash size p) (f e))
      → IsValid size t
      → IsValid size (set_chain size t p (change_live p f (chain size t p)))
  change-IsValid t p f keeps v =
      set_chain-IsValid t p t.tracked_count (change_live p f (chain size t p)) v
        (change_live-Good size (hash size p) p f (chain size t p) keeps (chain-Good t p v))
        (omega (arith, length-change_live p f (chain size t p))) v.bounded

  -- `AddBytes` keeps the table valid.
  pub add_bytes-IsValid :
      (t : ConnectionTable) (p up down : ℕ)
      → IsValid size t
      → IsValid size (add_bytes size t p up down)
  unfolding add_bytes
  add_bytes-IsValid t p up down v = change-IsValid t p (with_bytes up down) (λ e g. g) v

  -- `SetProcessInfo`, if it returns, keeps the table valid.
  pub set_process_info-IsValid :
      (t u : ConnectionTable) (p pid : ℕ) (path : Option (List ℕ))
      → IsValid size t
      → set_process_info size t p pid path ≡ some u
      → IsValid size u
  unfolding set_process_info
  set_process_info-IsValid t u p pid none v h =
      subst (IsValid size) (ground arith) (change-IsValid t p (with_pid pid) (λ e g. g) v)
  set_process_info-IsValid t u p pid (some path) v h =
      elim (Option-cases (find_live p (chain size t p))) [
        | inl e ↦ subst (IsValid size) (ground arith) v
        | inr (x, e) ↦ elim (Bool-cases (ltb (length path) path_size)) [
          | inl fits ↦ subst (IsValid size) (ground arith) (
              change-IsValid t p (with_process pid path)
                (λ x g. (g.0, g.1, ltb→lt (length path) path_size fits)) v)
          | inr over ↦ absurd (ground arith)
        ]
      ]
