-- ===== src/Bcache/Calls.antt =====
-- Every operation of kernel/blk/bcache.c keeps the list of slots whole.
use drunix_os.Bcache.Sync.{sync_flush, sync_unchosen, Chosen-or_not, sync_usable, sync_past}
use drunix_os.Bcache.Store.{write_real, write_null, after_write}
use drunix_os.Bcache.Access.{read_miss, after_acquire}
use drunix_os.Base.{
  ℕ, zero, suc, ◌+◌, ◌≡◌, refl, inl, inr, true, false, List, arith, ℕ_discrete, ◌==◌, Bool-cases,
  Option-cases, length, get_elem?,
}
use drunix_os.Bcache.Disk.{Io, disk_write_block, disk_read_block}
use drunix_os.Bcache.Cache.{
  Cache, Victim, found, absent, spinning, find_slot, flushed, acquire_slot, load, fill_slot, read,
  write, write_through, sync_from, sync,
}
use drunix_os.Bcache.Ring.{Ringed}
use drunix_os.Bcache.View.{find_slot-some}
use drunix_os.Bcache.Hunt.{is_usable}
use drunix_os.Bcache.Turned.{
  acquire_slot-Turned, touched-Turned, fill_slot-Turned, set-Turned, flushed-Turned, Turned-refl,
  Turned-trans, Turned,
}

module _ {S X : Type 0} (io : Io S X) where
  load-Turned : (c : Cache S X) (i dev lba : ℕ) → Ringed c → Turned c (load io c i dev lba).1
  unfolding load
  load-Turned c i dev lba r = elim (Option-cases (get_elem? c.slots i)) [
    | inl e ↦ rw (load, e) (Turned-refl c r)
    | inr (s, at) ↦ elim (Option-cases (disk_read_block io c.disk dev lba)) [
      | inl bad ↦ rw (load, at, bad) (set-Turned c i s _ _ r at (inl refl) (inr (inr refl)))
      | inr (block, good) ↦ rw (load, at, good) (set-Turned c i s _ _ r at (inl refl) (inl refl))
    ]
  ]

  pub read-Turned :
      (rounds : ℕ) (c : Cache S X) (dev lba : ℕ) → Ringed c → Turned c (read io rounds c dev lba).1
  unfolding read
  read-Turned rounds c dev lba r = elim (ℕ_discrete dev 0) [
    | yes null ↦ rw null (Turned-refl c r)
    | no real ↦ elim (Option-cases (find_slot c.slots dev lba)) [
      | inr (i, f) ↦
          let e : (dev == 0) ≡ false = ground arith in
          rw (read, e, f) (touched-Turned c dev lba i _ r f refl refl)
      | inl f ↦
          let a = acquire_slot-Turned io rounds c dev lba r in
          rw (read_miss io rounds c dev lba real f)
            (close (acquire_slot io rounds c dev lba).0 (acquire_slot io rounds c dev lba).1 a)
    ]
  ]
    where
      close :
          (v : Victim) (next : Cache S X)
          → Turned c next
          → Turned c (after_acquire io dev lba (v, next)).1
      close (found i) next t = Turned-trans c next _ t (load-Turned next i dev lba t.ring)
      close absent next t = t
      close spinning next t = t

  pub write-Turned :
      (rounds : ℕ) (c : Cache S X) (dev lba : ℕ) (block : List X)
      → Ringed c
      → Turned c (write io rounds c dev lba block).1
  write-Turned rounds c dev lba block r = elim (ℕ_discrete dev 0) [
    | yes null ↦ rw (null, write_null io rounds c lba block) (Turned-refl c r)
    | no real ↦ rw (write_real io rounds c dev lba block real) (
        close (acquire_slot io rounds c dev lba).0 (acquire_slot io rounds c dev lba).1
          (acquire_slot-Turned io rounds c dev lba r))
  ]
    where
      close :
          (v : Victim) (next : Cache S X)
          → Turned c next
          → Turned c (after_write io block (v, next)).1
      close (found i) next t = Turned-trans c next _ t (fill_slot-Turned next i block true t.ring)
      close absent next t = t
      close spinning next t = t

  pub write_through-Turned :
      (c : Cache S X) (dev lba : ℕ) (block : List X)
      → Ringed c
      → Turned c (write_through io c dev lba block).1
  unfolding write_through fill_slot
  write_through-Turned c dev lba block r = elim (Bool-cases (dev == 0)) [
    | inl null ↦ simp null (Turned-refl c r)
    | inr real ↦ elim (Bool-cases (disk_write_block io c.disk dev lba block).0) [
      | inr bad ↦ simp (real, bad) (record { ring = r; size = refl })
      | inl ok ↦ elim (Option-cases (find_slot c.slots dev lba)) [
        | inl f ↦ rw (write_through, real, ok, f) (record { ring = r; size = refl })
        | inr (i, f) ↦
            let (s, at, own) = find_slot-some c.slots dev lba i f in
            rw (write_through, real, ok, f)
              (rw (fill_slot, at) (set-Turned c i s _ _ r at (inl refl) (inr (inl refl))))
      ]
    ]
  ]

  sync_from-Turned :
      (n : ℕ) (c : Cache S X) (dev i : ℕ) → Ringed c → Turned c (sync_from io n c dev i).1
  sync_from-Turned zero c dev i r = unfold sync_from in Turned-refl c r
  sync_from-Turned (suc n) c dev i r = elim (Option-cases (get_elem? c.slots i)) [
    | inl past ↦ rw (sync_past io n c dev i past) (Turned-refl c r)
    | inr (s, at) ↦ elim (Bool-cases (is_usable s)) [
      | inl u ↦ rw (sync_usable io n c dev i s at u) (sync_from-Turned n c dev (i + 1) r)
      | inr u ↦ elim (Chosen-or_not dev s.dev) [
        | inr (real, other) ↦
            rw (sync_unchosen io n c dev i s at real other) (sync_from-Turned n c dev (i + 1) r)
        | inl chosen ↦
            let k = flushed-Turned io c i s r at in
            rw (sync_flush io n c dev i s at u chosen) (
              Turned-trans c (flushed io c i s).1 _ k
                (sync_from-Turned n (flushed io c i s).1 dev (i + 1) k.ring))
      ]
    ]
  ]

  pub sync-Turned : (c : Cache S X) (dev : ℕ) → Ringed c → Turned c (sync io c dev).1
  unfolding sync
  sync-Turned c dev r = sync_from-Turned (length c.slots) c dev 0 r
