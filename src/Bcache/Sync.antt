-- ===== src/Bcache/Sync.antt =====
-- `bcache_sync` of kernel/blk/bcache.c.
use drunix_os.Base.{
  get_elem?_past, get_elem?-length, ℕ, zero, suc, ◌+◌, ◌≤◌, ◌<◌, ◌≡◌, refl, sym, ap, ◌∙◌, ◌≢◌, ◌⊎◌,
  inl, inr, Bool, true, false, ◌&&◌, none, some, List, arith, ℕ_discrete, ◌==◌, Bool-cases,
  Option-cases, subst, length, get_elem?, length-set, get_elem?-set_self, get_elem?-set_ne,
}
use drunix_os.Bcache.Disk.{Io, IsDisk}
use drunix_os.Bcache.Blocks.{stored_block}
use drunix_os.Bcache.Cache.{Cache, Slot, flushed, find_slot, sync_from, sync}
use drunix_os.Bcache.View.{
  IsGrid, Coherent, view, view_free, view_cached, find_slot-some, find_slot-none,
}
use drunix_os.Bcache.Change.{is_for-key}
use drunix_os.Bcache.Flush.{Keeps, Keeps-refl, Keeps-trans, flushed-Keeps}
use drunix_os.Bcache.Hunt.{is_usable, flushed_ok, flushed_fails}

-- The devices that a sync is about.
abbrev pub Chosen : ℕ → ℕ → Type 0
Chosen dev d = (dev ≡ 0) ⊎ (d ≡ dev)

pub Chosen-or_not : (dev d : ℕ) → Chosen dev d ⊎ ((dev ≢ 0) × (d ≢ dev))
Chosen-or_not dev d = elim (ℕ_discrete dev 0) [
  | yes z ↦ inl (inl z)
  | no real ↦ elim (ℕ_discrete d dev) [ yes p ↦ inl (inr p) | no other ↦ inr (real, other) ]
]

module _ {S X : Type 0} (io : Io S X) (n : ℕ) (c : Cache S X) (dev i : ℕ) where
  pub sync_past : get_elem? c.slots i ≡ none → sync_from io (suc n) c dev i ≡ (true, c)
  unfolding sync_from
  sync_past e = rw (sync_from, e) refl

  module _ (s : Slot X) (at : get_elem? c.slots i ≡ some s) where
    pub sync_usable :
        is_usable s ≡ true → sync_from io (suc n) c dev i ≡ sync_from io n c dev (i + 1)
    unfolding sync_from
    sync_usable u = rw (sync_from, at) (simp u refl)

    pub sync_unchosen :
        dev ≢ 0 → s.dev ≢ dev → sync_from io (suc n) c dev i ≡ sync_from io n c dev (i + 1)
    unfolding sync_from
    sync_unchosen real other =
        let e : (dev == 0) ≡ false = ground arith in
        let e' : (s.dev == dev) ≡ false = ground arith in
        elim (Bool-cases (is_usable s)) [
          | inl u ↦ sync_usable u
          | inr u ↦ rw (sync_from, at) (simp (u, e, e') refl)
        ]

    pub sync_flush :
        is_usable s ≡ false
        → Chosen dev s.dev
        → sync_from io (suc n) c dev i ≡ (
          (flushed io c i s).0 && (sync_from io n (flushed io c i s).1 dev (i + 1)).0,
          (sync_from io n (flushed io c i s).1 dev (i + 1)).1,
        )
    unfolding sync_from
    sync_flush u chosen = elim chosen [
      | inl null ↦ let e : (dev == 0) ≡ true = ground arith in rw (sync_from, at) (simp (u, e) refl)
      | inr own ↦
          let e : (s.dev == dev) ≡ true = ground arith in
          elim (Bool-cases (dev == 0)) [
            | inl z ↦ rw (sync_from, at) (simp (u, z) refl)
            | inr z ↦ rw (sync_from, at) (simp (u, z, e) refl)
          ]
    ]

module _ {S X : Type 0} (io : Io S X) (stored : S → ℕ → ℕ → X) (laws : IsDisk io stored)
    (grid : ℕ → ℕ → Bool) (lawful : IsGrid grid) where
  -- The loop of a sync over the slots from `low` up to `high`: no reader sees it, it leaves the slots below,
  -- and if no write fails, it leaves no dirty slot of the chosen devices.
  pub record Synced (dev low high : ℕ) (c : Cache S X) (out : Bool × Cache S X) : Type 0 where
    pub keeps : Keeps stored grid c out.1
    pub size : length out.1.slots ≡ length c.slots
    pub below : (j : ℕ) → j < low → get_elem? out.1.slots j ≡ get_elem? c.slots j
    pub swept :
        out.0 ≡ true
        → (j : ℕ) (s : Slot X) → low ≤ j
        → j < high
        → get_elem? out.1.slots j ≡ some s
        → Chosen dev s.dev
        → is_usable s ≡ true

  Synced-step :
      (dev i high : ℕ) (c : Cache S X) (out : Bool × Cache S X) (s : Slot X)
      → get_elem? c.slots i ≡ some s
      → (Chosen dev s.dev → is_usable s ≡ true)
      → Synced dev (i + 1) high c out
      → Synced dev i high c out
  Synced-step dev i high c out s at fine r = record {
    keeps = r.keeps;
    size = r.size;
    below = λ j p. r.below j (omega arith);
    swept = λ ok j t low p e chosen. elim (ℕ_discrete j i) [
      | no apart ↦ r.swept ok j t (omega arith) p e chosen
      | yes same ↦
          let here : get_elem? out.1.slots i ≡ get_elem? c.slots i = r.below i (omega arith) in
          let e' = rw same at e in
          let one : s ≡ t = cc in
          subst (λ (u : Slot X). Chosen dev u.dev → is_usable u ≡ true) one fine chosen
    ];
  }

  Synced-flushed :
      (dev i high : ℕ) (c : Cache S X) (s : Slot X) (rest : Bool × Cache S X)
      → get_elem? c.slots i ≡ some s
      → Keeps stored grid c (flushed io c i s).1
      → Synced dev (i + 1) high (flushed io c i s).1 rest
      → Synced dev i high c ((flushed io c i s).0 && rest.0, rest.1)
  Synced-flushed dev i high c s rest at k r = elim (Bool-cases (flushed io c i s).0) [
    | inl ok ↦
        let t = record s { dirty = false } in
        let slots = flushed_ok io c i s ok in
        let there : get_elem? (flushed io c i s).1.slots i ≡ some t =
          ap (λ (l : List (Slot X)). get_elem? l i) slots ∙ get_elem?-set_self c.slots i s t at in
        let u =
          Synced-step dev i high (flushed io c i s).1 rest t there (λ chosen. ground arith) r in
        simp ok (record {
          keeps = Keeps-trans stored grid c (flushed io c i s).1 rest.1 k r.keeps;
          size = r.size ∙ ap (λ (l : List (Slot X)). length l) slots ∙ length-set c.slots i t;
          below = λ j p.
              r.below j (omega arith)
              ∙ ap (λ (l : List (Slot X)). get_elem? l j) slots
              ∙ get_elem?-set_ne c.slots i j t (λ q. omega arith);
          swept = u.swept;
        })
    | inr bad ↦
        let slots : (flushed io c i s).1.slots ≡ c.slots =
          ap (λ (d : Cache S X). d.slots) (flushed_fails io c i s bad) in
        simp bad (record {
          keeps = Keeps-trans stored grid c (flushed io c i s).1 rest.1 k r.keeps;
          size = r.size ∙ ap (λ (l : List (Slot X)). length l) slots;
          below = λ j p. r.below j (omega arith) ∙ ap (λ (l : List (Slot X)). get_elem? l j) slots;
          swept = λ h. absurd (cc);
        })
  ]

  sync_from-Synced :
      (n : ℕ) (c : Cache S X) (dev i : ℕ)
      → Coherent stored grid c.slots c.disk
      → Synced dev i (i + n) c (sync_from io n c dev i)
  sync_from-Synced zero c dev i v =
      unfold sync_from in
      record {
        keeps = Keeps-refl stored grid c v;
        size = refl;
        below = λ j p. refl;
        swept = λ ok j s low p e chosen. absurd (omega arith);
      }
  sync_from-Synced (suc n) c dev i v = elim (Option-cases (get_elem? c.slots i)) [
    | inl past ↦ rw (sync_past io n c dev i past) (record {
      keeps = Keeps-refl stored grid c v;
      size = refl;
      below = λ j p. refl;
      swept = λ ok j s low p e chosen.
          let out : get_elem? c.slots j ≡ none = get_elem?_past c.slots i j past low in absurd (cc);
    })
    | inr (s, at) ↦
        let skipped = sync_from-Synced n c dev (i + 1) v in
        let last : i + 1 + n ≡ i + suc n = omega arith in
        elim (Bool-cases (is_usable s)) [
          | inl u ↦
              rw (sync_usable io n c dev i s at u, ← last)
                (Synced-step dev i (i + 1 + n) c _ s at (λ chosen. u) skipped)
          | inr u ↦ elim (Chosen-or_not dev s.dev) [
            | inr (real, other) ↦
                rw (sync_unchosen io n c dev i s at real other, ← last)
                  (Synced-step dev i (i + 1 + n) c _ s at
                    (λ chosen. elim chosen [
                      | inl z ↦ absurd (real z)
                      | inr own ↦ absurd (other own)
                    ])
                    skipped)
            | inl chosen ↦
                let k =
                  flushed-Keeps io stored laws grid lawful c i s v at (ground arith)
                    (ground arith) in
                rw (sync_flush io n c dev i s at u chosen, ← last)
                  (Synced-flushed dev i (i + 1 + n) c s _ at k
                    (sync_from-Synced n (flushed io c i s).1 dev (i + 1) k.coherent))
          ]
        ]
  ]

  -- After a sync of a coherent cache that succeeds, the disks hold every block of the chosen devices as it was seen.
  pub sync_durable :
      (c : Cache S X) (dev d l : ℕ)
      → Coherent stored grid c.slots c.disk
      → (sync io c dev).0 ≡ true
      → grid d l ≡ true
      → Chosen dev d
      → stored_block stored (sync io c dev).1.disk d l ≡ view stored c.slots c.disk d l
  unfolding sync
  sync_durable c dev d l v ok g chosen =
      let r = sync_from-Synced (length c.slots) c dev 0 v in
      let next = (sync_from io (length c.slots) c dev 0).1 in
      let k = r.keeps in
      elim (Option-cases (find_slot next.slots d l)) [
        | inl f ↦
            sym (view_free stored next.slots next.disk d l (find_slot-none next.slots d l f))
            ∙ k.same d l g
        | inr (i, f) ↦
            let (s, at, own) = find_slot-some next.slots d l i f in
            let (valid, sd, sl) = is_for-key s d l own in
            let n = get_elem?-length next.slots i s at in
            let u = r.swept ok i s (omega arith) (omega (arith, r.size)) at (rw sd chosen) in
            let held = k.coherent.clean i s at valid (ground arith) in
            rw (sd, sl) at held
            ∙ sym (view_cached stored grid next.slots next.disk d l i s k.coherent at own)
            ∙ k.same d l g
      ]

  -- A sync changes no block that is seen, whether it succeeds or not.
  pub sync-Keeps :
      (c : Cache S X) (dev : ℕ)
      → Coherent stored grid c.slots c.disk
      → Keeps stored grid c (sync io c dev).1
  unfolding sync
  sync-Keeps c dev v = (sync_from-Synced (length c.slots) c dev 0 v).keeps
