-- ===== src/Pty/History.antt =====
-- A ring of kernel/proc/pty.c is a first-in first-out queue: passes of writers and readers in any
-- order lose, double and reorder no byte.
use drunix_os.Pty.Fifo.{read_pass-Read, write_pass-Wrote, IsValid, contents}
use drunix_os.Base.{ℕ, ◌≡◌, sym, ap, ◌∙◌, true, List, [], ◌++◌, append_assoc, append-nil}
use mathlib.Core.List.{append_cancel_right}
use drunix_os.Pty.Ring.{PtyRing, write_pass, read_pass}

-- One pass, the bytes that it takes from a writer and the bytes that it gives to a reader.
pub data Pass (r : PtyRing) (sent got : List ℕ) (t : PtyRing) : Type 0 where
  writes :
      (bytes : List ℕ)
      → bytes ≡ sent ++ (write_pass r bytes).2
      → got ≡ []
      → t ≡ (write_pass r bytes).1
      → Pass r sent got t
  reads :
      (room : ℕ)
      → sent ≡ []
      → got ≡ (read_pass r room).2
      → t ≡ (read_pass r room).1
      → Pass r sent got t
  closes : sent ≡ [] → got ≡ [] → t ≡ record r { closed = true } → Pass r sent got t

-- Passes of any callers, in any order.
pub data History (r : PtyRing) : List ℕ → List ℕ → PtyRing → Type 0 where
  start : History r [] [] r
  then_pass :
      {sent got sent' got' : List ℕ} {s t : PtyRing}
      → History r sent got s
      → Pass s sent' got' t
      → History r (sent ++ sent') (got ++ got') t

Pass-fifo :
    {sent got : List ℕ} {s t : PtyRing}
    → Pass s sent got t
    → IsValid s
    → IsValid t × (contents s ++ sent ≡ got ++ contents t)
unfolding contents
Pass-fifo {sent} {got} {s} {t} (writes bytes e g u) v =
    let w = write_pass-Wrote s bytes v in
    let same : sent ≡ w.sent =
      append_cancel_right sent w.sent (write_pass s bytes).2 (sym e ∙ w.split) in
    rw (u, g) (w.valid, ap (λ l. contents s ++ l) same ∙ sym w.grown)
Pass-fifo {sent} {got} {s} {t} (reads room n g u) v =
    let d = read_pass-Read s room v in rw (u, n, g) (d.valid, append-nil (contents s) ∙ d.shrunk)
Pass-fifo {sent} {got} {s} {t} (closes n g u) v =
    rw (u, n, g)
      (
        record { storage = v.storage; tail_in = v.tail_in; fits = v.fits; head_at = v.head_at },
        append-nil (contents s),
      )

-- In every history, what readers have got followed by what is still in the ring is what was in the
-- ring at first followed by what writers have handed over, in order.
pub history_fifo :
    {r : PtyRing} {sent got : List ℕ} {t : PtyRing}
    → History r sent got t
    → IsValid r
    → IsValid t × (contents r ++ sent ≡ got ++ contents t)
history_fifo {r = r} start v = (v, append-nil (contents r))
history_fifo {r = r} {t = t} (then_pass {sent} {got} {sent'} {got'} {s} h p) v =
    let (vs, before) = history_fifo h v in
    let (vt, after) = Pass-fifo p vs in
    (
      vt,
      sym (append_assoc (contents r) sent sent')
          ∙ ap (λ l. l ++ sent') before
          ∙ append_assoc got (contents s) sent'
          ∙ ap (λ l. got ++ l) after
          ∙ sym (append_assoc got got' (contents t)),
    )
