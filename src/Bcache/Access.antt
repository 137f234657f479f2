-- ===== src/Bcache/Access.antt =====
-- Reads and writes of blocks through the cache of kernel/blk/bcache.c.
use drunix_os.Base.{
  ℕ, ◌≡◌, refl, sym, ap, ◌∙◌, ◌≢◌, inl, inr, Bool, true, false, Option, none, some, List, arith,
  ℕ_discrete, ◌==◌, Option-cases, subst, get_elem?, set,
}
use drunix_os.Bcache.Disk.{Io, IsDisk, disk_read_block}
use drunix_os.Bcache.Blocks.{disk_read_block-stored, length-disk_read_block}
use drunix_os.Bcache.Cache.{
  Cache, Slot, Status, done, failed, hangs, Victim, found, absent, spinning, is_for, find_slot,
  acquire_slot, load, read, dropped, block_of,
}
use drunix_os.Bcache.View.{IsGrid, Coherent, view, view_free, view-slot, find_slot-some}
use drunix_os.Bcache.Change.{set-Coherent, view-set_other, is_for_invalid}
use drunix_os.Bcache.Acquire.{Acquired, acquire_slot-Acquired}
use drunix_os.Bcache.Fill.{filled, filled-Updated}

module _ {S X : Type 0} (io : Io S X) where
  load-none :
      (c : Cache S X) (i dev lba : ℕ) (s : Slot X)
      → get_elem? c.slots i ≡ some s
      → disk_read_block io c.disk dev lba ≡ none
      → ((load io c i dev lba).0 ≡ failed)
        × ((load io c i dev lba).1.slots ≡ set c.slots i (dropped s))
        × ((load io c i dev lba).1.disk ≡ c.disk)
  unfolding load
  load-none c i dev lba s at e = rw (load, at, e) (refl, refl, refl)

  load-some :
      (c : Cache S X) (i dev lba : ℕ) (s : Slot X) (block : List X)
      → get_elem? c.slots i ≡ some s
      → disk_read_block io c.disk dev lba ≡ some block
      → ((load io c i dev lba).0 ≡ done)
        × ((load io c i dev lba).1.slots ≡ set c.slots i (filled s false block))
        × ((load io c i dev lba).1.disk ≡ c.disk)
        × ((load io c i dev lba).2 ≡ some block)
  unfolding load
  load-some c i dev lba s block at e = rw (load, at, e) (refl, refl, refl, refl)

  abbrev pub after_acquire : ℕ → ℕ → Victim × Cache S X → Status × Cache S X × Option (List X)
  after_acquire dev lba (found i, next) = load io next i dev lba
  after_acquire dev lba (absent, next) = (failed, next, none)
  after_acquire dev lba (spinning, next) = (hangs, next, none)

  pub read_null :
      (rounds : ℕ) (c : Cache S X) (lba : ℕ) → read io rounds c 0 lba ≡ (failed, c, none)
  unfolding read
  read_null rounds c lba = refl

  pub read_miss :
      (rounds : ℕ) (c : Cache S X) (dev lba : ℕ)
      → dev ≢ 0
      → find_slot c.slots dev lba ≡ none
      → read io rounds c dev lba ≡ after_acquire dev lba (acquire_slot io rounds c dev lba)
  unfolding read
  read_miss rounds c dev lba real f =
      let e : (dev == 0) ≡ false = ground arith in
      rw (read, e, f)
        (split (acquire_slot io rounds c dev lba).0 (acquire_slot io rounds c dev lba).1)
    where
      split :
          (v : Victim) (next : Cache S X)
          → elim v as (λ _. Status × Cache S X × Option (List X)) [
            | found i ↦ load io next i dev lba
            | absent ↦ (failed, next, none)
            | spinning ↦ (hangs, next, none)
          ]
            ≡ after_acquire dev lba (v, next)
      split (found i) next = refl
      split absent next = refl
      split spinning next = refl

  read_hit :
      (rounds : ℕ) (c : Cache S X) (dev lba i : ℕ)
      → dev ≢ 0
      → find_slot c.slots dev lba ≡ some i
      → ((read io rounds c dev lba).1.slots ≡ c.slots)
        × ((read io rounds c dev lba).1.disk ≡ c.disk)
        × ((read io rounds c dev lba).2 ≡ block_of c i)
  unfolding read
  read_hit rounds c dev lba i real f =
      let e : (dev == 0) ≡ false = ground arith in rw (read, e, f) (refl, refl, refl)

module _ {S X : Type 0} (io : Io S X) (stored : S → ℕ → ℕ → X) (laws : IsDisk io stored)
    (grid : ℕ → ℕ → Bool) (lawful : IsGrid grid) where
  -- A read changes no block that is seen, and one that succeeds gives the block seen at its place.
  pub record ReadOf (c : Cache S X) (dev lba : ℕ) (out : Status × Cache S X × Option (List X))
      : Type 0 where
    pub coherent : Coherent stored grid out.1.slots out.1.disk
    pub same :
        (dev' lba' : ℕ)
        → grid dev' lba' ≡ true
        → view stored out.1.slots out.1.disk dev' lba' ≡ view stored c.slots c.disk dev' lba'
    pub given : out.0 ≡ done → out.2 ≡ some (view stored c.slots c.disk dev lba)

  load-ReadOf :
      (c next : Cache S X) (dev lba i : ℕ)
      → grid dev lba ≡ true
      → Acquired stored grid c dev lba (found i, next)
      → find_slot c.slots dev lba ≡ none
      → ReadOf c dev lba (load io next i dev lba)
  load-ReadOf c next dev lba i g a nothing =
      let t = a.taken i refl in
      let s = t.slot in
      let invalid : s.valid ≡ false = a.fresh i s nothing refl t.here in
      let v = a.coherent in
      elim (Option-cases (disk_read_block io next.disk dev lba)) [
        | inl bad ↦
            let (o, slots, disk) = load-none io next i dev lba s t.here bad in
            let w =
              set-Coherent stored grid next.slots next.disk i s (dropped s) v t.here
                (λ h. absurd (cc)) in
            record {
              coherent = rw (slots, disk) w;
              same = λ dev' lba' g'.
                  rw (slots, disk)
                    (view-set_other stored grid next.slots next.disk i s (dropped s) dev' lba' v w
                        t.here (is_for_invalid s dev' lba' invalid)
                        (is_for_invalid (dropped s) dev' lba' refl)
                      ∙ a.same dev' lba' g');
              given = λ e. absurd (cc);
            }
        | inr (block, good) ↦
            let (o, slots, disk, got) = load-some io next i dev lba s block t.here good in
            let held =
              disk_read_block-stored io stored laws next.disk dev lba block (lawful.room dev lba g)
                good in
            let n = length-disk_read_block io stored laws next.disk dev lba block good in
            let u =
              filled-Updated stored grid next dev lba i s false block v t t.here g n (λ p. held) in
            let before : view stored next.slots next.disk dev lba ≡ block =
              view_free stored next.slots next.disk dev lba (λ j r e. elim (ℕ_discrete j i) [
                | no apart ↦ t.alone j r apart e
                | yes p ↦
                    let e' = rw p at e in
                    let one : s ≡ r = some_injective s r (sym t.here ∙ e') in
                    subst (λ (q : Slot X). is_for q dev lba ≡ false) one
                      (is_for_invalid s dev lba invalid)
              ])
              ∙ held in
            record {
              coherent = rw (slots, disk) (u.coherent);
              same = λ dev' lba' g'.
                  rw (slots, disk)
                    (elim (ℕ_discrete dev' dev) [
                      | no p ↦ u.others dev' lba' g' (inl p)
                      | yes p ↦ elim (ℕ_discrete lba' lba) [
                        | no q ↦ u.others dev' lba' g' (inr q)
                        | yes q ↦ rw (p, q) (u.own ∙ sym before)
                      ]
                    ]
                      ∙ a.same dev' lba' g');
              given = λ e. got ∙ ap some (sym before ∙ a.same dev lba g);
            }
      ]
    where
      some_injective : (p q : Slot X) → some p ≡ some q → p ≡ q
      some_injective p q e = cc

  after-ReadOf :
      (c next : Cache S X) (dev lba : ℕ) (victim : Victim)
      → grid dev lba ≡ true
      → Acquired stored grid c dev lba (victim, next)
      → find_slot c.slots dev lba ≡ none
      → ReadOf c dev lba (after_acquire io dev lba (victim, next))
  after-ReadOf c next dev lba (found i) g a nothing = load-ReadOf c next dev lba i g a nothing
  after-ReadOf c next dev lba absent g a nothing = record {
    coherent = a.coherent;
    same = a.same;
    given = λ e. absurd (cc);
  }
  after-ReadOf c next dev lba spinning g a nothing = record {
    coherent = a.coherent;
    same = a.same;
    given = λ e. absurd (cc);
  }

  -- In a coherent cache, a read at a place of the grid leaves the cache coherent and changes no block that is
  -- seen; if it succeeds, it gives the block seen at its place.
  pub read-ReadOf :
      (rounds : ℕ) (c : Cache S X) (dev lba : ℕ)
      → Coherent stored grid c.slots c.disk
      → grid dev lba ≡ true
      → ReadOf c dev lba (read io rounds c dev lba)
  read-ReadOf rounds c dev lba v g = elim (ℕ_discrete dev 0) [
    | yes null ↦
        rw (null, read_null io rounds c lba)
          (record { coherent = v; same = λ dev' lba' g'. refl; given = λ e. absurd (cc) })
    | no real ↦ elim (Option-cases (find_slot c.slots dev lba)) [
      | inl nothing ↦ rw (read_miss io rounds c dev lba real nothing) (
          after-ReadOf c (acquire_slot io rounds c dev lba).1 dev lba
            (acquire_slot io rounds c dev lba).0 g
            (acquire_slot-Acquired io stored laws grid lawful rounds c dev lba v) nothing)
      | inr (i, f) ↦
          let (slots, disk, got) = read_hit io rounds c dev lba i real f in
          let (s, at, own) = find_slot-some c.slots dev lba i f in
          record {
            coherent = rw (slots, disk) v;
            same = λ dev' lba' g'. rw (slots, disk) refl;
            given =
                λ e. got ∙ rw at (ap some (sym (view-slot stored c.slots c.disk dev lba i s f at)));
          }
    ]
  ]
