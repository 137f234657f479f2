-- ===== src/Bcache/Blocks.antt =====
-- What the block transfers of kernel/blk/bcache.c do to the sectors of the disks.
use drunix_os.Base.{
  ℕ, zero, suc, ◌+◌, ◌%◌, ◌^◌, ◌≤◌, ◌<◌, ◌≡◌, refl, sym, ap, ◌∙◌, ◌≢◌, ◌⊎◌, inl, inr, true, false,
  some, List, [], ◌∷◌, arith, if◌then◌else◌, Bool-cases, subst, >>=-eq-some, length,
}
use drunix_os.Bcache.Disk.{
  Io, IsDisk, block_sectors, read_sectors, disk_read_block, write_sectors, disk_write_block,
}

-- The `n` values from `k` on.
unfoldable pub span : {X : Type 0} → ℕ → (ℕ → X) → ℕ → List X
span zero f k = []
span (suc n) f k = f k ∷ span n f (k + 1)

pub span-eq :
    {X : Type 0} (n : ℕ) (f g : ℕ → X) (k : ℕ)
    → ((j : ℕ) → k ≤ j → j < k + n → f j ≡ g j)
    → span n f k ≡ span n g k
unfolding span
span-eq zero f g k same = refl
span-eq (suc n) f g k same =
    let here : f k ≡ g k = same k (omega arith) (omega arith) in
    let rest : span n f (k + 1) ≡ span n g (k + 1) =
      span-eq n f g (k + 1) (λ j p q. same j (omega arith) (omega arith)) in
    cc

-- The block that the disks hold.
abbrev pub stored_block : {S X : Type 0} → (S → ℕ → ℕ → X) → S → ℕ → ℕ → List X
stored_block stored disk dev lba = span block_sectors (stored disk dev) lba

module _ {S X : Type 0} (io : Io S X) (stored : S → ℕ → ℕ → X) (laws : IsDisk io stored) where
  read_sectors-span :
      (n : ℕ) (disk : S) (dev lba : ℕ) (xs : List X)
      → lba + n ≤ 2 ^ 32
      → read_sectors io n disk dev lba ≡ some xs
      → span n (stored disk dev) lba ≡ xs
  unfolding read_sectors span
  read_sectors-span zero disk dev lba xs h e = cc
  read_sectors-span (suc n) disk dev lba xs h e =
      let small : lba % 2 ^ 32 ≡ lba = omega arith in
      let (x, first, rest) = >>=-eq-some (io.read_sector disk dev (lba % 2 ^ 32)) _ e in
      let (ys, later, whole) = >>=-eq-some (read_sectors io n disk dev (lba + 1)) _ rest in
      let here : stored disk dev lba ≡ x = laws.reads disk dev lba x (rw small at first) in
      let there : span n (stored disk dev) (lba + 1) ≡ ys =
        read_sectors-span n disk dev (lba + 1) ys (omega arith) later in
      cc

  length-read_sectors :
      (n : ℕ) (disk : S) (dev lba : ℕ) (xs : List X)
      → read_sectors io n disk dev lba ≡ some xs
      → length xs ≡ n
  unfolding read_sectors
  length-read_sectors zero disk dev lba xs e =
      let nothing : [] ≡ xs = cc in ap (λ (l : List X). length l) (sym nothing)
  length-read_sectors (suc n) disk dev lba xs e =
      let (x, first, rest) = >>=-eq-some (io.read_sector disk dev (lba % 2 ^ 32)) _ e in
      let (ys, later, whole) = >>=-eq-some (read_sectors io n disk dev (lba + 1)) _ rest in
      let made : x ∷ ys ≡ xs = cc in
      sym (ap (λ (l : List X). length l) made)
      ∙ ap suc (length-read_sectors n disk dev (lba + 1) ys later)

  pub length-disk_read_block :
      (disk : S) (dev lba : ℕ) (block : List X)
      → disk_read_block io disk dev lba ≡ some block
      → length block ≡ block_sectors
  unfolding disk_read_block
  length-disk_read_block disk dev lba block e =
      length-read_sectors block_sectors disk dev lba block e

  pub disk_read_block-stored :
      (disk : S) (dev lba : ℕ) (block : List X)
      → lba + block_sectors ≤ 2 ^ 32
      → disk_read_block io disk dev lba ≡ some block
      → stored_block stored disk dev lba ≡ block
  unfolding disk_read_block
  disk_read_block-stored disk dev lba block h e =
      read_sectors-span block_sectors disk dev lba block h e

  -- Sectors outside the range that is written, whether the write succeeds or not.
  write_sectors-outside :
      (xs : List X) (disk : S) (dev lba dev' lba' : ℕ)
      → lba + length xs ≤ 2 ^ 32
      → (dev' ≢ dev) ⊎ ((lba' < lba) ⊎ (lba + length xs ≤ lba'))
      → stored (write_sectors io disk dev lba xs).1 dev' lba' ≡ stored disk dev' lba'
  unfolding write_sectors
  write_sectors-outside [] disk dev lba dev' lba' h out = refl
  write_sectors-outside (x ∷ xs) disk dev lba dev' lba' h out =
      let small : lba % 2 ^ 32 ≡ lba = omega arith in
      let here : (dev' ≢ dev) ⊎ (lba' ≢ lba) = elim out [
        | inl other ↦ inl other
        | inr off ↦ inr (λ e. elim off [ inl low ↦ omega arith | inr high ↦ omega arith ])
      ] in
      let first = laws.keeps disk dev lba x dev' lba' here in
      let later : (dev' ≢ dev) ⊎ ((lba' < lba + 1) ⊎ (lba + 1 + length xs ≤ lba')) = elim out [
        | inl other ↦ inl other
        | inr off ↦ inr (elim off [ inl low ↦ inl (omega arith) | inr high ↦ inr (omega arith) ])
      ] in
      let rest =
        write_sectors-outside xs (io.write_sector disk dev lba x).1 dev (lba + 1) dev' lba'
          (omega arith) later in
      rw small (elim (Bool-cases (io.write_sector disk dev lba x).0) [
        | inl ok ↦ simp ok (rest ∙ first)
        | inr bad ↦ simp bad first
      ])

  write_sectors-first :
      (x : X) (xs : List X) (disk : S) (dev lba : ℕ)
      → lba < 2 ^ 32
      → write_sectors io disk dev lba (x ∷ xs) ≡ (
          if (io.write_sector disk dev lba x).0
          then write_sectors io (io.write_sector disk dev lba x).1 dev (lba + 1) xs
          else (false, (io.write_sector disk dev lba x).1))
  unfolding write_sectors
  write_sectors-first x xs disk dev lba h =
      let small : lba % 2 ^ 32 ≡ lba = omega arith in rw small refl

  write_sectors-inside :
      (xs : List X) (disk : S) (dev lba : ℕ)
      → lba + length xs ≤ 2 ^ 32
      → (write_sectors io disk dev lba xs).0 ≡ true
      → span (length xs) (stored (write_sectors io disk dev lba xs).1 dev) lba ≡ xs
  unfolding span
  write_sectors-inside [] disk dev lba h ok = refl
  write_sectors-inside (x ∷ xs) disk dev lba h ok =
      let next = (io.write_sector disk dev lba x).1 in
      let step = write_sectors-first x xs disk dev lba (omega arith) in
      elim (Bool-cases (io.write_sector disk dev lba x).0) [
        | inr bad ↦ absurd (ground (arith, step))
        | inl first ↦
            let same : write_sectors io disk dev lba (x ∷ xs)
                ≡ write_sectors io next dev (lba + 1) xs =
              rw first at step in
            let here : stored (write_sectors io next dev (lba + 1) xs).1 dev lba ≡ x =
              write_sectors-outside xs next dev (lba + 1) dev lba (omega arith)
                (inr (inl (omega arith)))
              ∙ laws.writes disk dev lba x first in
            let ok' : (write_sectors io next dev (lba + 1) xs).0 ≡ true = rw same at ok in
            let there = write_sectors-inside xs next dev (lba + 1) (omega arith) ok' in
            rw same (
              ap
                (λ (y : X).
                  y
                  ∷ span (length xs) (stored (write_sectors io next dev (lba + 1) xs).1 dev)
                      (lba + 1))
                here
              ∙ ap (λ (ys : List X). x ∷ ys) there)
      ]

  pub disk_write_block-outside :
      (disk : S) (dev lba : ℕ) (block : List X) (dev' lba' : ℕ)
      → length block ≡ block_sectors
      → lba + block_sectors ≤ 2 ^ 32
      → (dev' ≢ dev) ⊎ ((lba' + block_sectors ≤ lba) ⊎ (lba + block_sectors ≤ lba'))
      → stored_block stored (disk_write_block io disk dev lba block).1 dev' lba'
        ≡ stored_block stored disk dev' lba'
  unfolding disk_write_block
  disk_write_block-outside disk dev lba block dev' lba' n h out =
      elim (Bool-cases (io.has_write dev)) [
        | inr none_there ↦ simp none_there refl
        | inl there ↦ simp there (
            span-eq block_sectors (stored (write_sectors io disk dev lba block).1 dev')
              (stored disk dev') lba'
              (λ j p q. write_sectors-outside block disk dev lba dev' j (omega arith) (elim out [
                | inl other ↦ inl other
                | inr off ↦
                    inr (elim off [ inl low ↦ inl (omega arith) | inr high ↦ inr (omega arith) ])
              ])))
      ]

  pub disk_write_block-inside :
      (disk : S) (dev lba : ℕ) (block : List X)
      → length block ≡ block_sectors
      → lba + block_sectors ≤ 2 ^ 32
      → (disk_write_block io disk dev lba block).0 ≡ true
      → stored_block stored (disk_write_block io disk dev lba block).1 dev lba ≡ block
  unfolding disk_write_block
  disk_write_block-inside disk dev lba block n h ok = elim (Bool-cases (io.has_write dev)) [
    | inr none_there ↦ absurd (ground arith)
    | inl there ↦
        let ok' : (write_sectors io disk dev lba block).0 ≡ true = ground arith in
        simp there (
          subst (λ (m : ℕ). span m (stored (write_sectors io disk dev lba block).1 dev) lba ≡ block)
            n (write_sectors-inside block disk dev lba (omega arith) ok'))
  ]
