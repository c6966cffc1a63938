-- ===== src/Driver/Service/Queue.antt =====
-- RedirectService.c: the queue of redirected connections.
use tcp_redirector.Prelude.{
  ℕ, zero, suc, ◌+◌, ◌-◌, ◌%◌, ◌≤◌, ◌≡◌, refl, true, inl, inr, Bool-cases, List, [], ◌∷◌, ◌++◌,
  Option, none, some, length, take, drop, add32, add64, sign_extend, u32_mod, if◌then◌else◌, ltb,
  arith, length-append, length-drop,
}
use tcp_redirector.Driver.Entities.{
  RedirectInfo, RedirectStatus, Block, max_redirect_queue_size, status_success, status_not_found,
  status_insufficient_resources,
}
use tcp_redirector.Driver.Service.Ids.{Consecutive-snoc, Consecutive-drop, HasIds}
use tcp_redirector.Driver.Service.{
  RedirectService, initialize, enqueue, dequeue, dequeue_from, drain, peek_batch,
}

pub record IsValid (s : RedirectService) : Type 0 where
  pub counted : s.queue_count ≡ length s.redirect_queue
  pub capped : s.queue_max_count ≡ max_redirect_queue_size
  pub bounded : length s.redirect_queue ≤ max_redirect_queue_size
  pub rules_counted : s.rules_count ≡ length s.rules_list % u32_mod
  pub ids : HasIds s.redirect_queue s.next_redirect_id

-- A fresh service is valid.
pub initialize-IsValid : IsValid initialize
unfolding initialize
initialize-IsValid = record {
  counted = refl;
  capped = refl;
  bounded = omega arith;
  rules_counted = refl;
  ids = (1, omega arith, refl);
}

-- What the queue stores for a block that it accepts.
abbrev pub stamp : RedirectService → ℕ → Block RedirectInfo → Block RedirectInfo
stamp s tick b = record b {
  body = record b.body {
    redirect_id = sign_extend (add32 s.next_redirect_id 1);
    status = RedirectStatus.pending;
    timestamp = tick;
  };
}

pub drain_lem :
    (n : ℕ) (q : List (Block RedirectInfo)) (c : ℕ)
    → c ≡ length q
    → length q ≤ max_redirect_queue_size
    → drain n q c ≡ (take n q, drop n q, length (drop n q))
unfolding drain
drain_lem zero q c e h = rw e
drain_lem (suc n) [] c e h = rw e
drain_lem (suc n) (b ∷ q) c e h =
    ground (arith, drain_lem n q ((c + (u32_mod - 1)) % u32_mod) (omega arith) (omega arith))

-- In a valid service `enqueue` of a block appends it, stamped with the next identifier, exactly when
-- fewer than 4096 blocks wait; otherwise it only counts a failure. The statuses tell these apart.
pub enqueue_lem :
    (s : RedirectService) (b : Block RedirectInfo) (tick : ℕ)
    → IsValid s
    → enqueue s (some b) tick ≡ (
        if ltb (length s.redirect_queue) max_redirect_queue_size
        then (
          record s {
            next_redirect_id = add32 s.next_redirect_id 1;
            redirect_queue = s.redirect_queue ++ stamp s tick b ∷ [];
            queue_count = length s.redirect_queue + 1;
            total_redirects = add64 s.total_redirects 1;
            redirect_event = true;
          },
          status_success,
        )
        else (
          record s { failed_redirects = add64 s.failed_redirects 1 },
          status_insufficient_resources,
        ))
unfolding enqueue
enqueue_lem s b tick v = ground arith

pub enqueue-IsValid :
    (s : RedirectService) (b : Option (Block RedirectInfo)) (tick : ℕ)
    → IsValid s
    → IsValid (enqueue s b tick).0
enqueue-IsValid s none tick v = unfold enqueue in v
enqueue-IsValid s (some b) tick v =
    rw (enqueue_lem s b tick v)
      (elim (Bool-cases (ltb (length s.redirect_queue) max_redirect_queue_size)) [
        | inl room ↦ rw room (record {
          counted = omega (arith, length-append s.redirect_queue (stamp s tick b ∷ []));
          capped = v.capped;
          bounded = ground (arith, length-append s.redirect_queue (stamp s tick b ∷ []));
          rules_counted = v.rules_counted;
          ids = (
            v.ids.0,
            v.ids.1,
            Consecutive-snoc v.ids.0 s.redirect_queue s.next_redirect_id (stamp s tick b) v.ids.2
                refl,
          );
        })
        | inr full ↦ rw full (record {
          counted = v.counted;
          capped = v.capped;
          bounded = v.bounded;
          rules_counted = v.rules_counted;
          ids = v.ids;
        })
      ])

pub peek_batch_lem :
    (s : RedirectService) (n : ℕ)
    → IsValid s
    → peek_batch s n ≡ (
      record s {
        redirect_queue = drop n s.redirect_queue;
        queue_count = length (drop n s.redirect_queue);
      },
      take n s.redirect_queue,
      if ltb 0 (length (take n s.redirect_queue)) then status_success else status_not_found,
    )
unfolding peek_batch
peek_batch_lem s n v = rw (drain_lem n s.redirect_queue s.queue_count v.counted v.bounded)

pub peek_batch-IsValid : (s : RedirectService) (n : ℕ) → IsValid s → IsValid (peek_batch s n).0
peek_batch-IsValid s n v = rw (peek_batch_lem s n v) (record {
  counted = refl;
  capped = v.capped;
  bounded = omega (arith, v.bounded, length-drop n s.redirect_queue);
  rules_counted = v.rules_counted;
  ids = Consecutive-drop n v.ids.0 s.redirect_queue s.next_redirect_id v.ids.1 v.ids.2;
})

pub dequeue-IsValid : (s : RedirectService) → IsValid s → IsValid (dequeue s).0
unfolding dequeue
dequeue-IsValid s v = split s.redirect_queue v.counted v.bounded v.ids
  where
    split :
        (q : List (Block RedirectInfo))
        → s.queue_count ≡ length q
        → length q ≤ max_redirect_queue_size
        → HasIds q s.next_redirect_id
        → IsValid (dequeue_from (record s { redirect_queue = q }) q).0
    split [] e h ids = record {
      counted = e;
      capped = v.capped;
      bounded = h;
      rules_counted = v.rules_counted;
      ids = ids;
    }
    split (b ∷ rest) e h ids = record {
      counted = omega arith;
      capped = v.capped;
      bounded = omega arith;
      rules_counted = v.rules_counted;
      ids = Consecutive-drop 1 ids.0 (b ∷ rest) s.next_redirect_id ids.1 ids.2;
    }
