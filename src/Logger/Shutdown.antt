-- ===== src/Logger/Shutdown.antt =====
-- Logger.cpp: what Shutdown leaves unwritten.
use tcp_redirector.Prelude.{
  ◌≡◌, ◌⊎◌, false, List, [], ◌∷◌, ◌++◌, refl, ap, ◌∙◌, inl, inr, append_assoc,
}
use tcp_redirector.Logger.Entities.{LogEntry, Disk, Windows}
use tcp_redirector.Logger.Writer.{
  writing, ended, Writer, Turn, logs, sets, stops, takes, writes, take_batch, write_next, step,
}
use tcp_redirector.Logger.Delivery.{written, all_written}

-- The logger is shut down, and the thread has these entries left of its batch or has left its loop.
abbrev pub IsLeft : List LogEntry → Writer → Type 0
IsLeft es s = (s.running ≡ false) × ((s.phase ≡ writing es) ⊎ ((s.phase ≡ ended) × (es ≡ [])))

abbrev Follows : Windows → Turn → Writer → List LogEntry → Type 0
Follows w t s es = (rest : List LogEntry) × (written t s ++ rest ≡ es) × IsLeft rest (step w t s)

write-IsLeft :
    (w : Windows) (d : Disk) (s : Writer) (es : List LogEntry)
    → s.running ≡ false
    → s.phase ≡ writing es
    → Follows w (writes d) s es
unfolding step write_next
write-IsLeft w d s [] off at = simp (at, off) ([], refl, (refl, inr (refl, refl)))
write-IsLeft w d s (e ∷ es) off at = simp at (es, refl, (off, inl refl))

step-IsLeft :
    (w : Windows) (t : Turn) (s : Writer) (es : List LogEntry) → IsLeft es s → Follows w t s es
unfolding step take_batch write_next
step-IsLeft w (logs now level logger message file line function) s es h = (es, refl, h)
step-IsLeft w (sets level) s es h = (es, refl, h)
step-IsLeft w stops s es h = (es, refl, (refl, h.1))
step-IsLeft w takes s es (off, inl at) = (es, refl, simp (at, take_batch) (off, inl refl))
step-IsLeft w takes s es (off, inr at) = (es, refl, simp (at.0, take_batch) (off, inr (refl, at.1)))
step-IsLeft w (writes d) s es (off, inl at) = write-IsLeft w d s es off at
step-IsLeft w (writes d) s es (off, inr at) = simp at.0 (es, refl, (off, inr (refl, at.1)))

-- Once the logger is shut down while the thread writes a batch, or after it has left its loop, what the thread
-- still writes is a first part of what is left of the batch, whatever calls and turns follow: an entry that waits
-- in the queue is never written.
pub run-abandons :
    (w : Windows) (ts : List Turn) (s : Writer) (es : List LogEntry)
    → IsLeft es s
    → (rest : List LogEntry) × (all_written w ts s ++ rest ≡ es)
run-abandons w [] s es h = (es, refl)
run-abandons w (t ∷ ts) s es h =
    let (rest, split, left) = step-IsLeft w t s es h in
    let (last, more) = run-abandons w ts (step w t s) rest left in
    (
      last,
      append_assoc (written t s) (all_written w ts (step w t s)) last
          ∙ ap (λ xs. written t s ++ xs) more
          ∙ split,
    )
