-- ===== src/ContextStore/Tests.antt =====
-- ContextStore.cpp: a store at work, with contexts that live for 1800 ticks.
use tcp_redirector.ContextStore.Accounts.{Balanced, count, fresh, run-Balanced, run_clear}
use tcp_redirector.ContextStore.Histories.{IsValid, creations}
use tcp_redirector.ContextStore.Identity.{spares, get-close}
use tcp_redirector.ContextStore.{
  Call, create_call, get_call, close_call, cleanup_call, clear_call, History, is_expired, find,
  erase, insert, destroy_context, new_context, create, get, close, cleanup_from, cleanup_expired,
  step, run,
}
use tcp_redirector.Prelude.{
  suc, ◌+◌, ◌<◌, ◌≡◌, true, List, [], ◌∷◌, none, All, length, arith, refl, u64_mod,
}

-- The second context is closed, the first expires.
abbrev calls : List Call
calls =
    create_call 0 5 50 [] 1800
    ∷ create_call 10 6 60 [] 1800
    ∷ get_call 20 1
    ∷ close_call 2
    ∷ cleanup_call 1801
    ∷ create_call 1900 7 70 [] 1800
    ∷ []

all_calls : length (run calls fresh).released ≡ 2
unfolding run step create get close cleanup_expired cleanup_from destroy_context find erase insert
    is_expired
all_calls = refl

expired_is_gone : (get 2000 1 (run calls fresh).store).1 ≡ none
unfolding run step create get close cleanup_expired cleanup_from destroy_context find erase insert
    is_expired
expired_is_gone = refl

few : suc (creations calls) < u64_mod
unfolding creations
few = omega arith

run-Balanced_example : Balanced 50 (run calls fresh)
run-Balanced_example = run-Balanced 50 calls few

run_clear_example :
    let h = step clear_call (run calls fresh) in
    (h.store.contexts ≡ []) × (count 70 h.created ≡ count 70 h.released)
run_clear_example = run_clear 70 calls few

fresh-IsValid : IsValid fresh.store
fresh-IsValid = record { distinct = tt; fitting = tt }

abbrev later_calls : List Call
later_calls = create_call 10 6 60 [] 1800 ∷ get_call 20 1 ∷ close_call 2 ∷ cleanup_call 1700 ∷ []

later_few : suc (1 + creations later_calls) < u64_mod
unfolding creations
later_few = omega arith

later_spare : All (λ c. spares 1 1800 c ≡ true) later_calls
unfolding spares
later_spare = (refl, (refl, (refl, (refl, tt))))

one : History
one = record {
  store = record { contexts = (1, new_context 0 5 50 [] 1800) ∷ []; next_id = 2 };
  created = new_context 0 5 50 [] 1800 ∷ [];
  released = [];
}

one-IsValid : IsValid one.store
unfolding one find
one-IsValid = record { distinct = (refl, tt); fitting = ((omega arith, refl), tt) }

one_known : 1 < one.store.next_id
unfolding one
one_known = omega arith

one_few : one.store.next_id + creations later_calls < u64_mod
unfolding one creations
one_few = omega arith

get-close_example :
    let s = (run (close_call 1 ∷ later_calls) one).store in
    ((get 100 1 s).1 ≡ none) × (1 < (create 100 8 80 [] 1800 s).1)
get-close_example = get-close one later_calls 1 100 8 80 [] 1800 one-IsValid one_known one_few
