-- ===== src/Bcache/Acquire.antt =====
-- `acquire_slot` of kernel/blk/bcache.c: nothing seen through the cache changes, and the slot it gives
-- is the only one for the place.
use drunix_os.Base.{
  ℕ, ◌≡◌, refl, sym, ap, ◌∙◌, ◌≢◌, ◌⊎◌, inl, inr, Bool, true, false, none, some, List, arith,
  Bool-cases, Option-cases, subst, get_elem?, set, get_elem?-set_self,
}
use drunix_os.Bcache.Disk.{Io, IsDisk}
use drunix_os.Bcache.Cache.{
  Cache, Slot, is_for, hunt, Victim, found, absent, spinning, touch, acquire_slot, claim, claimed,
  tail, find_slot, reorder,
}
use drunix_os.Bcache.View.{IsGrid, Coherent, view, view_cached, find_slot-some, find_slot-none}
use drunix_os.Bcache.Change.{
  set-Coherent, view-set_gone, view-set_other, is_for-key, is_for_invalid, set-cases,
}
use drunix_os.Bcache.Flush.{Uncached}
use drunix_os.Bcache.Hunt.{Hunted, hunt-Hunted, is_usable, found_injective}

module _ {S X : Type 0} (stored : S → ℕ → ℕ → X) (grid : ℕ → ℕ → Bool) where
  -- The slot at `i` is the only one that may be for the place: it is for it, or it is not valid.
  pub record Taken (c : Cache S X) (dev lba i : ℕ) : Type 0 where
    pub slot : Slot X
    pub here : get_elem? c.slots i ≡ some slot
    pub dev_set : slot.dev ≡ dev
    pub lba_set : slot.lba ≡ lba
    pub alone :
        (j : ℕ) (t : Slot X) → j ≢ i → get_elem? c.slots j ≡ some t → is_for t dev lba ≡ false
    pub state : (is_for slot dev lba ≡ true) ⊎ (slot.valid ≡ false)

  pub record Acquired (c : Cache S X) (dev lba : ℕ) (out : Victim × Cache S X) : Type 0 where
    pub coherent : Coherent stored grid out.1.slots out.1.disk
    pub same :
        (dev' lba' : ℕ)
        → grid dev' lba' ≡ true
        → view stored out.1.slots out.1.disk dev' lba' ≡ view stored c.slots c.disk dev' lba'
    pub taken : (i : ℕ) → out.0 ≡ found i → Taken out.1 dev lba i
    pub fresh :
        (i : ℕ) (t : Slot X)
        → find_slot c.slots dev lba ≡ none
        → out.0 ≡ found i
        → get_elem? out.1.slots i ≡ some t
        → t.valid ≡ false

  -- A slot that is for the place already.
  pub hit-Taken :
      (c : Cache S X) (dev lba i : ℕ)
      → Coherent stored grid c.slots c.disk
      → find_slot c.slots dev lba ≡ some i
      → Taken c dev lba i
  hit-Taken c dev lba i v f =
      let (s, at, own) = find_slot-some c.slots dev lba i f in
      let (valid, d, l) = is_for-key s dev lba own in
      record {
        slot = s;
        here = at;
        dev_set = d;
        lba_set = l;
        state = inl own;
        alone = λ j t apart e. elim (Bool-cases (is_for t dev lba)) [
          | inr miss ↦ miss
          | inl hit ↦ absurd (apart (v.single j i t s dev lba e at hit own))
        ];
      }

  claimed-view :
      (c : Cache S X) (dev lba i : ℕ) (s : Slot X)
      → Coherent stored grid c.slots c.disk
      → get_elem? c.slots i ≡ some s
      → is_usable s ≡ true
      → Coherent stored grid (set c.slots i (claimed s dev lba)) c.disk
        × ((dev' lba' : ℕ)
            → view stored (set c.slots i (claimed s dev lba)) c.disk dev' lba'
              ≡ view stored c.slots c.disk dev' lba')
  claimed-view c dev lba i s v at usable =
      let new = claimed s dev lba in
      let w = set-Coherent stored grid c.slots c.disk i s new v at (λ bad. absurd (cc)) in
      (
        w,
        λ dev' lba'.
            let none_for = is_for_invalid new dev' lba' refl in
            elim (Bool-cases (is_for s dev' lba')) [
              | inr miss ↦
                  view-set_other stored grid c.slots c.disk i s new dev' lba' v w at miss none_for
              | inl hit ↦
                  let (valid, d, l) = is_for-key s dev' lba' hit in
                  let held = v.clean i s at valid (ground arith) in
                  view-set_gone stored grid c.slots c.disk i s new dev' lba' v at hit none_for
                  ∙ rw (d, l) at held
                  ∙ sym (view_cached stored grid c.slots c.disk dev' lba' i s v at hit)
            ],
      )

  claim_there :
      (c : Cache S X) (i dev lba : ℕ) (s : Slot X)
      → get_elem? c.slots i ≡ some s
      → ((claim c i dev lba).slots ≡ set c.slots i (claimed s dev lba))
        × ((claim c i dev lba).disk ≡ c.disk)
  unfolding claim
  claim_there c i dev lba s at = rw (claim, at) (refl, refl)

  claim-Acquired :
      (c d : Cache S X) (dev lba i : ℕ) (s : Slot X)
      → Coherent stored grid d.slots d.disk
      → ((dev' lba' : ℕ)
          → grid dev' lba' ≡ true
          → view stored d.slots d.disk dev' lba' ≡ view stored c.slots c.disk dev' lba')
      → Uncached d.slots dev lba
      → get_elem? d.slots i ≡ some s
      → is_usable s ≡ true
      → Acquired c dev lba (found i, claim d i dev lba)
  claim-Acquired c d dev lba i s v seen free at usable =
      let (slots, disk) = claim_there d i dev lba s at in
      let (w, same) = claimed-view d dev lba i s v at usable in
      let new = claimed s dev lba in
      record {
        coherent = rw (slots, disk) w;
        same = λ dev' lba' g. rw (slots, disk) (same dev' lba' ∙ seen dev' lba' g);
        taken = λ j e.
            let i_is : i ≡ j = found_injective i j e in
            rw (← i_is) (record {
              slot = new;
              here =
                  ap (λ (l : List (Slot X)). get_elem? l i) slots
                  ∙ get_elem?-set_self d.slots i s new at;
              dev_set = refl;
              lba_set = refl;
              alone = λ k t apart e'.
                  elim (set-cases d.slots i k s new t at
                    (ap (λ (l : List (Slot X)). get_elem? l k) (sym slots) ∙ e')) [
                      | inl (p, q) ↦ absurd (apart p)
                      | inr (p, e'') ↦ free k t e''
                    ];
              state = inr refl;
            });
        fresh = λ j t none_there e e'.
            let i_is : i ≡ j = found_injective i j e in
            let at' : get_elem? (claim d i dev lba).slots i ≡ some new =
              ap (λ (l : List (Slot X)). get_elem? l i) slots
              ∙ get_elem?-set_self d.slots i s new at in
            let there = rw (← i_is) at e' in
            let one : new ≡ t = cc in subst (λ (u : Slot X). u.valid ≡ false) one refl;
      }

module _ {S X : Type 0} (io : Io S X) where
  pub acquire_hit :
      (rounds : ℕ) (c : Cache S X) (dev lba i : ℕ)
      → find_slot c.slots dev lba ≡ some i
      → acquire_slot io rounds c dev lba ≡ (found i, reorder c (touch c.order i))
  unfolding acquire_slot
  acquire_hit rounds c dev lba i f = rw (acquire_slot, f) refl

  abbrev pub after_hunt : ℕ → ℕ → Victim → Cache S X → Victim × Cache S X
  after_hunt dev lba (found i) next = (found i, claim next i dev lba)
  after_hunt dev lba absent next = (absent, next)
  after_hunt dev lba spinning next = (spinning, next)

  pub acquire_miss :
      (rounds : ℕ) (c : Cache S X) (dev lba : ℕ)
      → find_slot c.slots dev lba ≡ none
      → acquire_slot io rounds c dev lba
        ≡ after_hunt dev lba (hunt io rounds c (tail c.order)).0 (hunt io rounds c (tail c.order)).1
  unfolding acquire_slot
  acquire_miss rounds c dev lba f =
      rw (acquire_slot, f)
        (split (hunt io rounds c (tail c.order)).0 (hunt io rounds c (tail c.order)).1)
    where
      split :
          (v : Victim) (next : Cache S X)
          → elim v as (λ _. Victim × Cache S X) [
            | found i ↦ (found i, claim next i dev lba)
            | absent ↦ (absent, next)
            | spinning ↦ (spinning, next)
          ]
            ≡ after_hunt dev lba v next
      split (found i) next = refl
      split absent next = refl
      split spinning next = refl

module _ {S X : Type 0} (io : Io S X) (stored : S → ℕ → ℕ → X) (laws : IsDisk io stored)
    (grid : ℕ → ℕ → Bool) (lawful : IsGrid grid) where
  pub acquire_slot-Acquired :
      (rounds : ℕ) (c : Cache S X) (dev lba : ℕ)
      → Coherent stored grid c.slots c.disk
      → Acquired stored grid c dev lba (acquire_slot io rounds c dev lba)
  acquire_slot-Acquired rounds c dev lba v = elim (Option-cases (find_slot c.slots dev lba)) [
    | inr (i, f) ↦ rw (acquire_hit io rounds c dev lba i f) (record {
      coherent = v;
      same = λ dev' lba' g. refl;
      taken = λ j e.
          let i_is : i ≡ j = found_injective i j e in
          rw (← i_is) (hit-Taken stored grid (reorder c (touch c.order i)) dev lba i v f);
      fresh = λ j t nothing e e'. absurd (cc);
    })
    | inl f ↦ rw (acquire_miss io rounds c dev lba f) (
        close (hunt io rounds c (tail c.order)).0 (hunt io rounds c (tail c.order)).1
          (hunt-Hunted io stored laws grid lawful rounds c (tail c.order) v)
          (find_slot-none c.slots dev lba f))
  ]
    where
      close :
          (victim : Victim) (next : Cache S X)
          → Hunted io stored laws grid lawful c (victim, next)
          → Uncached c.slots dev lba
          → Acquired stored grid c dev lba (after_hunt io dev lba victim next)
      close (found i) next h free =
          let (s, at, usable) = h.ready i refl in
          claim-Acquired stored grid c next dev lba i s h.keeps.coherent h.keeps.same
            (h.keeps.free dev lba free) at usable
      close absent next h free = record {
        coherent = h.keeps.coherent;
        same = h.keeps.same;
        taken = λ i e. absurd (cc);
        fresh = λ i t n e e'. absurd (cc);
      }
      close spinning next h free = record {
        coherent = h.keeps.coherent;
        same = h.keeps.same;
        taken = λ i e. absurd (cc);
        fresh = λ i t n e e'. absurd (cc);
      }
