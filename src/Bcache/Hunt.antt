-- ===== src/Bcache/Hunt.antt =====
-- The search of `acquire_slot` in kernel/blk/bcache.c for a slot to reuse: what it leaves, when it ends,
-- and when it does not.
use drunix_os.Base.{
  ℕ, zero, suc, ◌≡◌, refl, ap, ◌∙◌, inl, inr, Bool, true, false, not, ◌||◌, Option, none, some,
  List, arith, Bool-cases, Option-cases, subst, get_elem?, set, get_elem?-set_self,
}
use drunix_os.Bcache.Disk.{Io, IsDisk, disk_write_block}
use drunix_os.Bcache.Cache.{
  Cache, Slot, flushed, slot_writeback, hunt, Victim, found, absent, touch, prev, reorder,
}
use drunix_os.Bcache.View.{IsGrid, Coherent}
use drunix_os.Bcache.Flush.{Keeps, Keeps-refl, Keeps-trans, flushed-Keeps}

abbrev pub is_usable : {X : Type 0} → Slot X → Bool
is_usable s = not s.valid || not s.dirty

pub found_injective : (i j : ℕ) → found i ≡ found j → i ≡ j
found_injective i j e = cc

module _ {S X : Type 0} (io : Io S X) (rounds : ℕ) (c : Cache S X) (i : ℕ) where
  pub hunt_missing : get_elem? c.slots i ≡ none → hunt io (suc rounds) c (some i) ≡ (absent, c)
  unfolding hunt
  hunt_missing e = rw (hunt, e) refl

  module _ (s : Slot X) (at : get_elem? c.slots i ≡ some s) where
    pub hunt_usable : is_usable s ≡ true → hunt io (suc rounds) c (some i) ≡ (found i, c)
    unfolding hunt
    hunt_usable u = rw (hunt, at) (simp u refl)

    pub hunt-flushed :
        is_usable s ≡ false
        → (flushed io c i s).0 ≡ true
        → hunt io (suc rounds) c (some i) ≡ (found i, (flushed io c i s).1)
    unfolding hunt slot_writeback
    hunt-flushed u ok = rw (hunt, at) (simp (u, ok) refl)

    pub hunt_stuck :
        is_usable s ≡ false
        → (flushed io c i s).0 ≡ false
        → hunt io (suc rounds) c (some i)
          ≡ hunt io rounds
              (reorder (flushed io c i s).1 (touch (flushed io c i s).1.order i))
              (prev c.order i)
    unfolding hunt slot_writeback
    hunt_stuck u bad = rw (hunt, at) (simp (u, bad) refl)

module _ {S X : Type 0} (io : Io S X) (c : Cache S X) (i : ℕ) (s : Slot X) where
  pub flushed_ok :
      (flushed io c i s).0 ≡ true
      → (flushed io c i s).1.slots ≡ set c.slots i (record s { dirty = false })
  unfolding flushed
  flushed_ok ok = elim (Bool-cases (disk_write_block io c.disk s.dev s.lba s.block).0) [
    | inl good ↦ simp good refl
    | inr bad ↦ absurd (ground arith)
  ]

  pub flushed_fails :
      (flushed io c i s).0 ≡ false
      → (flushed io c i s).1
        ≡ record c { disk = (disk_write_block io c.disk s.dev s.lba s.block).1 }
  unfolding flushed
  flushed_fails bad = elim (Bool-cases (disk_write_block io c.disk s.dev s.lba s.block).0) [
    | inl good ↦ absurd (ground arith)
    | inr stays ↦ simp stays refl
  ]

module _ {S X : Type 0} (io : Io S X) (stored : S → ℕ → ℕ → X) (laws : IsDisk io stored)
    (grid : ℕ → ℕ → Bool) (lawful : IsGrid grid) where
  -- What the search leaves, whatever its rounds: nothing seen is changed, and a slot that it finds is
  -- there and is not dirty, or not valid.
  pub record Hunted (c : Cache S X) (out : Victim × Cache S X) : Type 0 where
    pub keeps : Keeps stored grid c out.1
    pub ready :
        (i : ℕ)
        → out.0 ≡ found i
        → (s : Slot X) × (get_elem? out.1.slots i ≡ some s) × (is_usable s ≡ true)

  pub hunt-Hunted :
      (rounds : ℕ) (c : Cache S X) (at : Option ℕ)
      → Coherent stored grid c.slots c.disk
      → Hunted c (hunt io rounds c at)
  hunt-Hunted zero c at v =
      unfold hunt in record { keeps = Keeps-refl stored grid c v; ready = λ i e. absurd (cc) }
  hunt-Hunted (suc rounds) c none v =
      unfold hunt in record { keeps = Keeps-refl stored grid c v; ready = λ i e. absurd (cc) }
  hunt-Hunted (suc rounds) c (some i) v = elim (Option-cases (get_elem? c.slots i)) [
    | inl missing ↦
        rw (hunt_missing io rounds c i missing)
          (record { keeps = Keeps-refl stored grid c v; ready = λ i e. absurd (cc) })
    | inr (s, at) ↦ elim (Bool-cases (is_usable s)) [
      | inl u ↦ rw (hunt_usable io rounds c i s at u) (record {
        keeps = Keeps-refl stored grid c v;
        ready = λ j e. let same : i ≡ j = found_injective i j e in (s, rw same at at, u);
      })
      | inr u ↦
          let next = (flushed io c i s).1 in
          let valid : s.valid ≡ true = ground arith in
          let dirty : s.dirty ≡ true = ground arith in
          let k = flushed-Keeps io stored laws grid lawful c i s v at valid dirty in
          elim (Bool-cases (flushed io c i s).0) [
            | inl ok ↦
                let there : get_elem? next.slots i ≡ some (record s { dirty = false }) =
                  ap (λ (l : List (Slot X)). get_elem? l i) (flushed_ok io c i s ok)
                  ∙ get_elem?-set_self c.slots i s (record s { dirty = false }) at in
                rw (hunt-flushed io rounds c i s at u ok) (record {
                  keeps = k;
                  ready = λ j e.
                      let same : i ≡ j = found_injective i j e in
                      (
                        record s { dirty = false },
                        subst
                            (λ (n : ℕ). get_elem? next.slots n ≡ some (record s { dirty = false }))
                            same there,
                        ground arith,
                      );
                })
            | inr bad ↦
                let rest =
                  hunt-Hunted rounds (reorder next (touch next.order i)) (prev c.order i)
                    k.coherent in
                rw (hunt_stuck io rounds c i s at u bad) (record {
                  keeps =
                      Keeps-trans stored grid c (reorder next (touch next.order i)) _
                        (record { coherent = k.coherent; same = k.same; free = k.free }) rest.keeps;
                  ready = rest.ready;
                })
          ]
    ]
  ]
