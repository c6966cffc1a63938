-- ===== src/ConnectionTable/Tests.antt =====
-- ConnectionTable.h: small tables. Four buckets, so that the ports 5 and 9 share one.
use tcp_redirector.ConnectionTable.Calls.{
  Call, add_call, remove_call, set_process_call, add_bytes_call, clear_call, Fits, run,
  expected_all,
}
use tcp_redirector.ConnectionTable.History.{Answers, run-Answers}
use tcp_redirector.Prelude.{ℕ, List, All, ◌≡◌, refl, true, [], ◌∷◌, some, arith}
use tcp_redirector.ConnectionTable.{ConnectionTable, empty, get, find_live}
use tcp_redirector.ConnectionTable.Placement.{IsValid}
use tcp_redirector.ConnectionTable.View.{view}

abbrev nothing : ConnectionTable
nothing = record { table = [] ∷ [] ∷ [] ∷ [] ∷ []; tracked_count = 0 }

abbrev one : ConnectionTable
one = record {
  table =
      []
      ∷ (record {
        src_port = 5;
        src_ip = 10;
        orig_dest_ip = 20;
        orig_dest_port = 443;
        proxy_config_id = 0;
        is_tracked = true;
        pid = 0;
        proc_path = [];
        bytes_up = 0;
        bytes_down = 0;
      }
          ∷ [])
      ∷ []
      ∷ []
      ∷ [];
  tracked_count = 1;
}

one-IsValid : IsValid 4 one
one-IsValid = record {
  buckets = refl;
  placed = (tt, (((refl, refl, omega arith), tt), (tt, (tt, tt))));
  counted = refl;
  bounded = omega arith;
}

get-one : get 4 one 5 ≡ some (20, 443)
unfolding get find_live
get-one = refl

abbrev some_calls : List Call
some_calls =
    add_call 5 10 20 443 0
    ∷ add_call 9 11 21 80 0
    ∷ set_process_call 9 77 (some (65 ∷ []))
    ∷ clear_call
    ∷ add_call 9 11 21 80 0
    ∷ add_call 9 11 22 81 0
    ∷ remove_call 9
    ∷ add_bytes_call 9 100 200
    ∷ []

some_calls-Fits : All Fits some_calls
unfolding Fits
some_calls-Fits = (tt, (tt, (omega arith, (tt, (tt, (tt, (tt, (tt, tt))))))))

run-Answers_example :
    (u : ConnectionTable) × (run 4 some_calls (empty 4) ≡ some u)
    × (IsValid 4 u)
    × ((q : ℕ)
        → (view 4 u q ≡ expected_all some_calls q [])
          × Answers 4 u q (expected_all some_calls q []))
run-Answers_example = run-Answers 4 some_calls (omega arith) (omega arith) some_calls-Fits
