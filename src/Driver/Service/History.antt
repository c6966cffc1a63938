-- ===== src/Driver/Service/History.antt =====
-- RedirectService.c: the queue over a whole history of calls.
use tcp_redirector.Prelude.{
  sym, ◌∙◌, ℕ, ◌≡◌, refl, List, [], ◌∷◌, ◌++◌, none, some, ltb, length, if◌then◌else◌, arith,
  append_assoc, append-nil, take-append-drop,
}
use tcp_redirector.Driver.Entities.{RedirectInfo, Block, max_redirect_queue_size}
use tcp_redirector.Driver.Service.Queue.{
  IsValid, stamp, enqueue_lem, enqueue-IsValid, peek_batch_lem, peek_batch-IsValid, dequeue-IsValid,
}
use tcp_redirector.Driver.Service.{RedirectService, enqueue, dequeue, dequeue_from, peek_batch}

-- The calls that change the queue: a block with the time of the call, one entry, a batch.
pub data Call : Type 0 where
  enqueues : Block RedirectInfo → ℕ → Call
  dequeues : Call
  batches : ℕ → Call

abbrev pub after : RedirectService → Call → RedirectService
after s (enqueues b tick) = (enqueue s (some b) tick).0
after s dequeues = (dequeue s).0
after s (batches n) = (peek_batch s n).0

-- The blocks that a call hands out.
abbrev pub delivered : RedirectService → Call → List (Block RedirectInfo)
delivered s (enqueues b tick) = []
delivered s dequeues = elim (dequeue s).1 [ none ↦ [] | some b ↦ b ∷ [] ]
delivered s (batches n) = (peek_batch s n).1

-- The blocks that a call adds: its block, stamped, if there is room.
abbrev pub accepted : RedirectService → Call → List (Block RedirectInfo)
accepted s (enqueues b tick) =
    if ltb (length s.redirect_queue) max_redirect_queue_size then stamp s tick b ∷ [] else []
accepted s dequeues = []
accepted s (batches n) = []

pub run : RedirectService → List Call → RedirectService
run s [] = s
run s (c ∷ cs) = run (after s c) cs

pub all_delivered : RedirectService → List Call → List (Block RedirectInfo)
all_delivered s [] = []
all_delivered s (c ∷ cs) = delivered s c ++ all_delivered (after s c) cs

pub all_accepted : RedirectService → List Call → List (Block RedirectInfo)
all_accepted s [] = []
all_accepted s (c ∷ cs) = accepted s c ++ all_accepted (after s c) cs

after-IsValid : (s : RedirectService) (c : Call) → IsValid s → IsValid (after s c)
after-IsValid s (enqueues b tick) v = enqueue-IsValid s (some b) tick v
after-IsValid s dequeues v = dequeue-IsValid s v
after-IsValid s (batches n) v = peek_batch-IsValid s n v

dequeue-delivered :
    (s : RedirectService)
    → delivered s dequeues ++ (after s dequeues).redirect_queue ≡ s.redirect_queue
unfolding dequeue
dequeue-delivered s = split s.redirect_queue
  where
    split :
        (q : List (Block RedirectInfo))
        → let r = dequeue_from (record s { redirect_queue = q }) q in
          (elim r.1 as (λ _. List (Block RedirectInfo)) [ none ↦ [] | some b ↦ b ∷ [] ])
            ++ r.0.redirect_queue
          ≡ q
    split [] = refl
    split (b ∷ q) = refl

after_step :
    (s : RedirectService) (c : Call)
    → IsValid s
    → delivered s c ++ (after s c).redirect_queue ≡ s.redirect_queue ++ accepted s c
after_step s (enqueues b tick) v =
    ground (arith, enqueue_lem s b tick v, append-nil s.redirect_queue)
after_step s dequeues v = dequeue-delivered s ∙ sym (append-nil s.redirect_queue)
after_step s (batches n) v =
    cc (peek_batch_lem s n v, append-nil s.redirect_queue, take-append-drop n s.redirect_queue)

-- From a valid service, whatever the calls: the blocks handed out, in order, followed by those that
-- wait are the blocks that waited at the start followed by those accepted, in order.
pub run-fifo :
    (s : RedirectService) (cs : List Call)
    → IsValid s
    → all_delivered s cs ++ (run s cs).redirect_queue ≡ s.redirect_queue ++ all_accepted s cs
unfolding run all_delivered all_accepted
run-fifo s [] v = sym (append-nil s.redirect_queue)
run-fifo s (c ∷ cs) v =
    rw (append_assoc, run-fifo (after s c) cs (after-IsValid s c v), ← append_assoc)
      (rw (after_step s c v, append_assoc))
