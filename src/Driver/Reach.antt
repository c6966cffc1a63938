-- ===== src/Driver/Reach.antt =====
-- The loaded driver: requests and connections arrive in any order, each handled as one step under
-- its spin lock, until the driver is unloaded.
use tcp_redirector.Prelude.{ℕ, ◌≡◌, refl, ap, Bool, Option, some, List, [], ◌∷◌, All, map}
use tcp_redirector.Driver.Entities.{RedirectInfo, Block, PoolTag, tag_ndrt, tag_rdrt, tag_lrrt}
use tcp_redirector.Driver.Service.Queue.{IsValid, initialize-IsValid}
use tcp_redirector.Driver.Service.{RedirectService, ProcessApi, initialize, cleanup, free_all}
use tcp_redirector.Driver.Ioctl.{Irp, device_control}
use tcp_redirector.Driver.Ioctl.Requests.{device_control-IsValid}
use tcp_redirector.Driver.Ioctl.Tags.{
  IsTagged, NamesTag, device_control-IsTagged, free_all-NamesTag,
}
use tcp_redirector.Driver.Callout.{Connection, Replies, Classified, classify}
use tcp_redirector.Driver.Callout.Queued.{classify-IsValid}

pub data Step (s : RedirectService) : RedirectService → Type 0 where
  request :
      {t : RedirectService} (api : ProcessApi) (irp : Irp) (allocated : ℕ → Bool)
      → t ≡ (device_control api s irp allocated).0
      → Step s t
  connection :
      {t : RedirectService} (api : ProcessApi) (handle : Option ℕ) (c : Connection) (w : Replies)
      (r : RedirectService × Classified)
      → classify api s handle c w ≡ some r
      → t ≡ r.0
      → Step s t

pub data Reach : RedirectService → Type 0 where
  loaded : {s : RedirectService} → s ≡ initialize → Reach s
  next : {s t : RedirectService} → Reach s → Step s t → Reach t

Step-IsValid : {s t : RedirectService} → Step s t → IsValid s → IsTagged s → IsValid t × IsTagged t
Step-IsValid {s} (request api irp allocated e) v g =
    rw e (
      device_control-IsValid api s irp allocated v,
      device_control-IsTagged api s irp allocated v g,
    )
Step-IsValid {s} (connection api handle c w r run e) v g =
    let k = classify-IsValid api s handle c w r v g run in rw e (k.0, k.1)

-- Whatever requests and connections came, the service is valid: the count is the number of blocks
-- that wait, at most 4096 wait, their identifiers are consecutive, the count of rules is their number
-- modulo 2 ^ 32; and each block carries the tag of the place that allocates its kind.
pub Reach-IsValid : {s : RedirectService} → Reach s → IsValid s × IsTagged s
Reach-IsValid (loaded e) =
    rw e (initialize-IsValid, unfold initialize in record { infos = tt; rules = tt })
Reach-IsValid (next r st) = let (v, g) = Reach-IsValid r in Step-IsValid st v g

free_all-Misnames :
    (bs : List (Block RedirectInfo))
    → All (λ b. b.tag ≡ tag_ndrt) bs
    → All (λ f. ¬ NamesTag f) (free_all tag_rdrt bs)
unfolding free_all
free_all-Misnames [] h = tt
free_all-Misnames (b ∷ bs) h = ((λ e. cc (h.0, e)), free_all-Misnames bs h.1)

free_all-map :
    {A : Type 0} (tag : PoolTag) (bs : List (Block A)) → map (λ f. f.freed) (free_all tag bs) ≡ bs
unfolding free_all
free_all-map tag [] = refl
free_all-map tag (b ∷ bs) = ap (λ cs. b ∷ cs) (free_all-map tag bs)

-- When a reachable driver is unloaded, the cleanup frees every connection that still waits and every rule, each
-- exactly once and in order, the rules with the tag of their allocation, but the connections with a tag that is
-- not the one of their allocation.
pub cleanup-misnames :
    (s : RedirectService)
    → Reach s
    → (map (λ f. f.freed) (cleanup s).1 ≡ s.redirect_queue)
      × (map (λ f. f.freed) (cleanup s).2 ≡ s.rules_list)
      × All (λ f. ¬ NamesTag f) (cleanup s).1
      × All NamesTag (cleanup s).2
unfolding cleanup
cleanup-misnames s r =
    let (v, g) = Reach-IsValid r in
    (
      free_all-map tag_rdrt s.redirect_queue,
      free_all-map tag_lrrt s.rules_list,
      free_all-Misnames s.redirect_queue g.infos,
      free_all-NamesTag tag_lrrt s.rules_list g.rules,
    )
