-- ===== src/Driver/Service.antt =====
-- driver/.../domain/services/RedirectService.c and .h: the queue of redirected connections, the
-- rules cache and the process lookup. The service is the global `g_RedirectService`, so its own
-- pointer is never NULL; the spin locks make each function one step.
pub mod Ids
pub mod Queue
pub mod History
pub mod Rules
pub mod Terminated
use tcp_redirector.Prelude.{
  ℕ, zero, suc, ◌-◌, min, Bool, true, false, List, [], ◌∷◌, ◌++◌, Option, none, some, length, take,
  replicate, ltb, leb_signed32, add32, add64, dec32, sign_extend, if◌then◌else◌, contains, c_str,
}
use tcp_redirector.Driver.Entities.{
  RedirectInfo, RedirectStatus, ProcessIdentity, RuleEntry, RuleAction, permit, Block, Free,
  PoolTag, tag_rdrt, tag_lrrt, max_redirect_queue_size, max_process_path_length,
  max_process_name_length, status_success, status_invalid_parameter, status_insufficient_resources,
  status_not_found, nt_success,
}

pub record RedirectService : Type 0 where
  pub redirect_queue : List (Block RedirectInfo)
  pub queue_count : ℕ
  pub queue_max_count : ℕ
  pub next_redirect_id : ℕ
  pub redirect_event : Bool
  pub rules_list : List (Block RuleEntry)
  pub rules_count : ℕ
  pub redirect_handle : Option ℕ
  pub total_redirects : ℕ
  pub failed_redirects : ℕ
  pub total_bytes_redirected : ℕ

unfoldable pub initialize : RedirectService
initialize = record {
  redirect_queue = [];
  queue_count = 0;
  queue_max_count = max_redirect_queue_size;
  next_redirect_id = 1;
  redirect_event = false;
  rules_list = [];
  rules_count = 0;
  redirect_handle = none;
  total_redirects = 0;
  failed_redirects = 0;
  total_bytes_redirected = 0;
}

-- `while (!IsListEmpty(...)) ExFreePoolWithTag(RemoveHeadList(...), tag)`.
unfoldable pub free_all : {A : Type 0} → PoolTag → List (Block A) → List (Free A)
free_all tag [] = []
free_all tag (b ∷ bs) = record { freed = b; named = tag } ∷ free_all tag bs

unfoldable pub cleanup :
    RedirectService → RedirectService × List (Free RedirectInfo) × List (Free RuleEntry)
unfolding free_all
cleanup s = (
  record s { redirect_queue = []; queue_count = 0; rules_list = []; rules_count = 0 },
  free_all tag_rdrt s.redirect_queue,
  free_all tag_lrrt s.rules_list,
)

-- `tick` is what KeQueryTickCount gives.
unfoldable pub enqueue : RedirectService → Option (Block RedirectInfo) → ℕ → RedirectService × ℕ
enqueue s none tick = (s, status_invalid_parameter)
enqueue s (some b) tick =
    if leb_signed32 s.queue_max_count s.queue_count
    then (record s { failed_redirects = add64 s.failed_redirects 1 }, status_insufficient_resources)
    else (
      record s {
        next_redirect_id = add32 s.next_redirect_id 1;
        redirect_queue =
            s.redirect_queue
            ++ record b {
              body = record b.body {
                redirect_id = sign_extend (add32 s.next_redirect_id 1);
                status = RedirectStatus.pending;
                timestamp = tick;
              };
            }
              ∷ [];
        queue_count = add32 s.queue_count 1;
        total_redirects = add64 s.total_redirects 1;
        redirect_event = true;
      },
      status_success,
    )

dequeue_from :
    RedirectService → List (Block RedirectInfo) → RedirectService × Option (Block RedirectInfo) × ℕ
dequeue_from s [] = (s, none, status_not_found)
dequeue_from s (b ∷ rest) =
    (record s { redirect_queue = rest; queue_count = dec32 s.queue_count }, some b, status_success)

unfoldable pub dequeue : RedirectService → RedirectService × Option (Block RedirectInfo) × ℕ
unfolding dequeue_from
dequeue s = dequeue_from s s.redirect_queue

-- The loop of RedirectService_PeekBatch, with the rounds and the entries that are left; the blocks
-- that it stored, the queue and the count.
unfoldable pub drain :
    ℕ → List (Block RedirectInfo) → ℕ → List (Block RedirectInfo) × List (Block RedirectInfo) × ℕ
drain zero queue count = ([], queue, count)
drain (suc n) [] count = ([], [], count)
drain (suc n) (b ∷ queue) count =
    let (batch, rest, left) = drain n queue (dec32 count) in (b ∷ batch, rest, left)

-- The batch, whose length is the new `*Count`, and the status.
unfoldable pub peek_batch : RedirectService → ℕ → RedirectService × List (Block RedirectInfo) × ℕ
unfolding drain
peek_batch s batch_size =
    let (batch, rest, left) = drain batch_size s.redirect_queue s.queue_count in
    (
      record s { redirect_queue = rest; queue_count = left },
      batch,
      if ltb 0 (length batch) then status_success else status_not_found,
    )

unfoldable pub acknowledge : RedirectService → ℕ → RedirectService × ℕ
acknowledge s redirect_id = (s, status_success)

-- `allocated` says whether ExAllocatePool2 gave a block.
unfoldable pub add_rule : RedirectService → Option RuleEntry → Bool → RedirectService × ℕ
add_rule s none allocated = (s, status_invalid_parameter)
add_rule s (some rule) false = (s, status_insufficient_resources)
add_rule s (some rule) true = (
  record s {
    rules_list = s.rules_list ++ record { tag = tag_lrrt; body = rule } ∷ [];
    rules_count = add32 s.rules_count 1;
  },
  status_success,
)

unfoldable pub clear_rules : RedirectService → RedirectService × List (Free RuleEntry) × ℕ
unfolding free_all
clear_rules s =
    (record s { rules_list = []; rules_count = 0 }, free_all tag_lrrt s.rules_list, status_success)

-- `wcsstr(text, pattern) != NULL`; `none` if one of the arrays has no NUL, so that the call reads
-- past its end.
unfoldable pub wcsstr_found : List ℕ → List ℕ → Option Bool
unfolding contains c_str
wcsstr_found text pattern = elim (c_str text) [
  | none ↦ none
  | some t ↦ elim (c_str pattern) [ none ↦ none | some p ↦ some (contains p t) ]
]

unfoldable pub rule_text : RuleEntry → ProcessIdentity → List ℕ
rule_text rule process = if rule.is_path_rule then process.process_path else process.process_name

unfoldable pub match_from : List (Block RuleEntry) → ProcessIdentity → Option RuleAction
unfolding wcsstr_found rule_text
match_from [] process = some permit
match_from (b ∷ rest) process =
    let next = match_from rest process in
    if b.body.is_wildcard
    then some b.body.action
    else elim (wcsstr_found (rule_text b.body process) b.body.pattern) [
      | none ↦ none
      | some found ↦ if found then some b.body.action else next
    ]

-- `none` is a read past the end of an array.
unfoldable pub match_rule : RedirectService → ProcessIdentity → Option RuleAction
unfolding match_from
match_rule s process = match_from s.rules_list process

-- The process functions of the kernel: a status, and the counted strings that they give.
pub record ProcessApi : Type 0 where
  pub lookup_process_by_id : ℕ → ℕ
  pub image_file_name : ℕ → Option (List ℕ)
  pub locate_image_name : ℕ → ℕ × List ℕ

-- RtlCopyMemory of at most all but the last WCHAR into a zeroed array of `size`.
unfoldable pub copy_name : ℕ → List ℕ → List ℕ
copy_name size source =
    let n = min (length source) (size - 1) in take n source ++ replicate (size - n) 0

zero_name : ℕ → List ℕ
zero_name size = replicate size 0

process_name_of : Option (List ℕ) → List ℕ
unfolding copy_name zero_name
process_name_of none = zero_name max_process_name_length
process_name_of (some image) = copy_name max_process_name_length image

process_path_of : ℕ × List ℕ → List ℕ
unfolding copy_name zero_name
process_path_of (status, image) =
    if nt_success status
    then copy_name max_process_path_length image
    else zero_name max_process_path_length

unfoldable pub identify_process : ProcessApi → ℕ → ProcessIdentity × ℕ
unfolding process_name_of process_path_of zero_name
identify_process api pid =
    if nt_success (api.lookup_process_by_id pid)
    then (
      record {
        process_id = pid;
        process_name = process_name_of (api.image_file_name pid);
        process_path = process_path_of (api.locate_image_name pid);
      },
      status_success,
    )
    else (
      record {
        process_id = pid;
        process_name = zero_name max_process_name_length;
        process_path = zero_name max_process_path_length;
      },
      api.lookup_process_by_id pid,
    )

-- The pending, total and failed counts.
unfoldable pub get_stats : RedirectService → ℕ × ℕ × ℕ
get_stats s = (s.queue_count, s.total_redirects, s.failed_redirects)
