-- ===== src/Bcache/Change.antt =====
-- What a change of one slot or of the disks does to the blocks seen through the cache of
-- kernel/blk/bcache.c.
use drunix_os.Base.{
  ℕ, ◌≡◌, sym, ◌∙◌, ◌≢◌, ◌⊎◌, inl, inr, Bool, true, false, some, List, arith, ℕ_discrete,
  Bool-cases, Option-cases, length, get_elem?, set, get_elem?-set_self, get_elem?-set_ne,
}
use drunix_os.Bcache.Disk.{block_sectors}
use drunix_os.Bcache.Blocks.{stored_block}
use drunix_os.Bcache.Cache.{find_slot, Slot, is_for}
use drunix_os.Bcache.View.{
  view-slot, find_slot-some, find_slot-none, Coherent, view, view_cached, view_free,
}

module _ {X : Type 0} where
  pub is_for-key :
      (s : Slot X) (dev lba : ℕ)
      → is_for s dev lba ≡ true
      → (s.valid ≡ true) × (s.dev ≡ dev) × (s.lba ≡ lba)
  unfolding is_for
  is_for-key s dev lba h = ground arith

  pub is_for_own : (s : Slot X) → s.valid ≡ true → is_for s s.dev s.lba ≡ true
  unfolding is_for
  is_for_own s v = ground arith

  pub is_for_here :
      (s : Slot X) (dev lba : ℕ)
      → s.valid ≡ true
      → s.dev ≡ dev
      → s.lba ≡ lba
      → is_for s dev lba ≡ true
  unfolding is_for
  is_for_here s dev lba v d l = ground arith

  pub is_for-away :
      (s : Slot X) (dev lba : ℕ)
      → s.valid ≡ true
      → is_for s dev lba ≡ false
      → (dev ≢ s.dev) ⊎ (lba ≢ s.lba)
  is_for-away s dev lba v miss = elim (ℕ_discrete dev s.dev) [
    | no p ↦ inl p
    | yes p ↦ elim (ℕ_discrete lba s.lba) [
      | no q ↦ inr q
      | yes q ↦ let hit = is_for_here s dev lba v (sym p) (sym q) in absurd (cc)
    ]
  ]

  pub is_for_invalid : (s : Slot X) (dev lba : ℕ) → s.valid ≡ false → is_for s dev lba ≡ false
  unfolding is_for
  is_for_invalid s dev lba v = ground arith

  -- The slots of a table with one entry replaced.
  pub set-cases :
      (slots : List (Slot X)) (i j : ℕ) (old new t : Slot X)
      → get_elem? slots i ≡ some old
      → get_elem? (set slots i new) j ≡ some t
      → ((j ≡ i) × (t ≡ new)) ⊎ ((j ≢ i) × (get_elem? slots j ≡ some t))
  set-cases slots i j old new t at e = elim (ℕ_discrete i j) [
    | yes same ↦
        let own = get_elem?-set_self slots i old new at in
        let e' = rw (← same) at e in inl (sym same, cc)
    | no other ↦ inr ((λ q. other (sym q)), sym (get_elem?-set_ne slots i j new other) ∙ e)
  ]

module _ {S X : Type 0} (stored : S → ℕ → ℕ → X) (grid : ℕ → ℕ → Bool) where
  -- A valid slot that may stand at index `i`.
  pub record Fits (slots : List (Slot X)) (disk : S) (i : ℕ) (new : Slot X) : Type 0 where
    pub placed : (grid new.dev new.lba ≡ true) × (length new.block ≡ block_sectors)
    pub alone :
        (j : ℕ) (t : Slot X) → j ≢ i → get_elem? slots j ≡ some t → is_for t new.dev new.lba ≡ false
    pub clean : new.dirty ≡ false → stored_block stored disk new.dev new.lba ≡ new.block

  pub set-Coherent :
      (slots : List (Slot X)) (disk : S) (i : ℕ) (old new : Slot X)
      → Coherent stored grid slots disk
      → get_elem? slots i ≡ some old
      → (new.valid ≡ true → Fits slots disk i new)
      → Coherent stored grid (set slots i new) disk
  set-Coherent slots disk i old new c at fits = record {
    placed = λ j t e v. elim (set-cases slots i j old new t at e) [
      | inl (p, q) ↦ rw q ((fits (rw q at v)).placed)
      | inr (p, e') ↦ c.placed j t e' v
    ];
    single = λ j k t u dev lba et eu ft fu. elim (set-cases slots i j old new t at et) [
      | inl (p, q) ↦ elim (set-cases slots i k old new u at eu) [
        | inl (p', q') ↦ p ∙ sym p'
        | inr (p', e') ↦
            let (v, d, l) = is_for-key new dev lba (rw q at ft) in
            let out = (fits v).alone k u p' e' in absurd (cc)
      ]
      | inr (p, e) ↦ elim (set-cases slots i k old new u at eu) [
        | inl (p', q') ↦
            let (v, d, l) = is_for-key new dev lba (rw q' at fu) in
            let out = (fits v).alone j t p e in absurd (cc)
        | inr (p', e') ↦ c.single j k t u dev lba e e' ft fu
      ]
    ];
    clean = λ j t e v d. elim (set-cases slots i j old new t at e) [
      | inl (p, q) ↦ rw q ((fits (rw q at v)).clean (rw q at d))
      | inr (p, e') ↦ c.clean j t e' v d
    ];
  }

  -- The place of the new slot is seen with the new block.
  pub view-set_own :
      (slots : List (Slot X)) (disk : S) (i : ℕ) (old new : Slot X) (dev lba : ℕ)
      → Coherent stored grid (set slots i new) disk
      → get_elem? slots i ≡ some old
      → is_for new dev lba ≡ true
      → view stored (set slots i new) disk dev lba ≡ new.block
  view-set_own slots disk i old new dev lba c at own =
      view_cached stored grid (set slots i new) disk dev lba i new c
        (get_elem?-set_self slots i old new at) own

  -- The place that the old slot was for, and the new one is not, is seen as the disk holds it.
  pub view-set_gone :
      (slots : List (Slot X)) (disk : S) (i : ℕ) (old new : Slot X) (dev lba : ℕ)
      → Coherent stored grid slots disk
      → get_elem? slots i ≡ some old
      → is_for old dev lba ≡ true
      → is_for new dev lba ≡ false
      → view stored (set slots i new) disk dev lba ≡ stored_block stored disk dev lba
  view-set_gone slots disk i old new dev lba c at was isnt =
      view_free stored (set slots i new) disk dev lba (λ j t e.
        elim (set-cases slots i j old new t at e) [
          | inl (p, q) ↦ rw q isnt
          | inr (p, e') ↦ elim (Bool-cases (is_for t dev lba)) [
            | inr miss ↦ miss
            | inl hit ↦ absurd (p (c.single j i t old dev lba e' at hit was))
          ]
        ])

  -- Other places are seen as before.
  pub view-set_other :
      (slots : List (Slot X)) (disk : S) (i : ℕ) (old new : Slot X) (dev lba : ℕ)
      → Coherent stored grid slots disk
      → Coherent stored grid (set slots i new) disk
      → get_elem? slots i ≡ some old
      → is_for old dev lba ≡ false
      → is_for new dev lba ≡ false
      → view stored (set slots i new) disk dev lba ≡ view stored slots disk dev lba
  view-set_other slots disk i old new dev lba c c' at was isnt =
      elim (Option-cases (find_slot slots dev lba)) [
        | inl nothing ↦
            let free = find_slot-none slots dev lba nothing in
            view_free stored (set slots i new) disk dev lba (λ j t e.
              elim (set-cases slots i j old new t at e) [
                | inl (p, q) ↦ rw q isnt
                | inr (p, e') ↦ free j t e'
              ])
            ∙ sym (view_free stored slots disk dev lba free)
        | inr (k, f) ↦
            let (s, there, own) = find_slot-some slots dev lba k f in
            let apart : i ≢ k = λ e.
              let there' = rw (← e) at there in
              let same : s ≡ old = cc in let own' = rw same at own in absurd (cc) in
            view_cached stored grid (set slots i new) disk dev lba k s c'
              (get_elem?-set_ne slots i k new apart ∙ there) own
            ∙ sym (view_cached stored grid slots disk dev lba k s c there own)
      ]

  -- A change of the disks at one place of the grid, for which no clean slot is.
  pub disk-Coherent :
      (slots : List (Slot X)) (disk disk' : S) (dev lba : ℕ)
      → Coherent stored grid slots disk
      → ((dev' lba' : ℕ)
          → grid dev' lba' ≡ true
          → (dev' ≢ dev) ⊎ (lba' ≢ lba)
          → stored_block stored disk' dev' lba' ≡ stored_block stored disk dev' lba')
      → ((j : ℕ) (t : Slot X)
          → get_elem? slots j ≡ some t
          → is_for t dev lba ≡ true
          → t.dirty ≡ true)
      → Coherent stored grid slots disk'
  disk-Coherent slots disk disk' dev lba c elsewhere dirty = record {
    placed = c.placed;
    single = c.single;
    clean = λ i s e v d.
        let away : (s.dev ≢ dev) ⊎ (s.lba ≢ lba) = elim (ℕ_discrete s.dev dev) [
          | no p ↦ inl p
          | yes p ↦ elim (ℕ_discrete s.lba lba) [
            | no q ↦ inr q
            | yes q ↦
                let own : is_for s dev lba ≡ true = is_for_here s dev lba v p q in
                let bad = dirty i s e own in absurd (cc)
          ]
        ] in
        elsewhere s.dev s.lba (c.placed i s e v).0 away ∙ c.clean i s e v d;
  }

  -- Then a place is seen as before if the disks keep it, or a slot is for it.
  pub view-disk :
      (slots : List (Slot X)) (disk disk' : S) (dev lba : ℕ)
      → stored_block stored disk' dev lba ≡ stored_block stored disk dev lba
      → view stored slots disk' dev lba ≡ view stored slots disk dev lba
  view-disk slots disk disk' dev lba same = elim (Option-cases (find_slot slots dev lba)) [
    | inl nothing ↦
        let free = find_slot-none slots dev lba nothing in
        view_free stored slots disk' dev lba free
        ∙ same
        ∙ sym (view_free stored slots disk dev lba free)
    | inr (k, f) ↦
        let (s, there, own) = find_slot-some slots dev lba k f in
        view-slot stored slots disk' dev lba k s f there
        ∙ sym (view-slot stored slots disk dev lba k s f there)
  ]

  pub view-disk_cached :
      (slots : List (Slot X)) (disk disk' : S) (dev lba i : ℕ) (s : Slot X)
      → get_elem? slots i ≡ some s
      → is_for s dev lba ≡ true
      → view stored slots disk' dev lba ≡ view stored slots disk dev lba
  view-disk_cached slots disk disk' dev lba i s at own =
      elim (Option-cases (find_slot slots dev lba)) [
        | inl nothing ↦ let miss = find_slot-none slots dev lba nothing i s at in absurd (cc)
        | inr (k, f) ↦
            let (t, there, own') = find_slot-some slots dev lba k f in
            view-slot stored slots disk' dev lba k t f there
            ∙ sym (view-slot stored slots disk dev lba k t f there)
      ]
