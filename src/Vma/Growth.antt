-- ===== src/Vma/Growth.antt =====
-- `vma_ensure_capacity`: what it gives and keeps, and that its doubling loop ends.
use drunix_os.Base.{
  ℕ, zero, suc, ◌+◌, ◌*◌, ◌%◌, ◌^◌, ◌≤◌, ◌<◌, ◌≡◌, refl, Bool, true, false, ltb, leb, List, Option,
  none, some, arith, Bool-cases, inl, inr,
}
use native.Mathlib.Nat.{pow-suc}
use drunix_os.Vma.Area.{VmArea}
use drunix_os.Vma.Process.{
  Process, AddressSpace, table, capacity, put_table, Growth, grown, refused, spinning,
  grow_capacity, resize, growth_fuel, done, ensure_capacity,
}

pub table-put_table : (p : Process) (vs : List VmArea) → table (put_table p vs) ≡ vs
table-put_table p vs = ground arith

pub table-ensure_capacity :
    (memory : Bool) (p : Process) (n : ℕ) → table (ensure_capacity memory p n).1 ≡ table p
unfolding ensure_capacity
table-ensure_capacity memory p n = ground arith

grow_capacity-le : (fuel size needed c : ℕ) → grow_capacity fuel size needed ≡ grown c → needed ≤ c
unfolding grow_capacity
grow_capacity-le zero size needed c e = cc
grow_capacity-le (suc fuel) size needed c e =
    ground (arith, grow_capacity-le fuel (size * 2 % 2 ^ 32) needed c)

resize_room :
    (p : Process) (s : AddressSpace) (memory : Bool) (g : Growth) (n : ℕ)
    → ((c : ℕ) → g ≡ grown c → n ≤ c)
    → (resize p s memory g).0 ≡ done
    → n ≤ capacity (resize p s memory g).1
unfolding resize
resize_room p s true (grown c) n h e = h c refl
resize_room p s false (grown c) n h e = cc
resize_room p s memory refused n h e = cc
resize_room p s memory spinning n h e = cc

-- When it succeeds, the table has room for what was asked.
pub ensure_capacity_room :
    (memory : Bool) (p : Process) (n : ℕ)
    → (ensure_capacity memory p n).0 ≡ done
    → n ≤ capacity (ensure_capacity memory p n).1
unfolding ensure_capacity
ensure_capacity_room memory p n = go p.space refl
  where
    go :
        (o : Option AddressSpace)
        → p.space ≡ o
        → (ensure_capacity memory p n).0 ≡ done
        → n ≤ capacity (ensure_capacity memory p n).1
    go none e = ground arith
    go (some s) e = elim (Bool-cases (leb n s.vma_capacity)) [
      | inl y ↦ ground arith
      | inr z ↦
          rw (e, ensure_capacity, z)
            (resize_room p s memory _ n (λ c. grow_capacity-le growth_fuel _ n c))
    ]

-- From a capacity of 2 ^ k the loop that doubles it ends within 32 - k rounds with a capacity that
-- suffices, where 2 ^ 31 entries or fewer are needed.
pub grow_capacity_total :
    (fuel k needed : ℕ)
    → needed ≤ 2 ^ 31
    → k + fuel ≡ 31
    → (c : ℕ) × (grow_capacity (suc fuel) (2 ^ k) needed ≡ grown c) × (needed ≤ c)
unfolding grow_capacity
grow_capacity_total zero k needed h e =
    let e' : k ≡ 31 = omega arith in rw e' (2 ^ 31, ground arith, h)
grow_capacity_total (suc fuel) k needed h e = elim (Bool-cases (ltb (2 ^ k) needed)) [
  | inr enough ↦ (2 ^ k, ground arith, ground arith)
  | inl short ↦
      let (c, ih, le) = grow_capacity_total fuel (suc k) needed h (omega arith) in
      let double : 2 ^ k * 2 % 2 ^ 32 ≡ 2 ^ suc k = ground (arith, pow-suc 2 k) in
      (c, rw (short, double) (ground arith), le)
]

-- A capacity that has wrapped to 0 stays there.
grow_capacity_stuck : (fuel needed : ℕ) → 0 < needed → grow_capacity fuel 0 needed ≡ spinning
unfolding grow_capacity
grow_capacity_stuck zero needed h = refl
grow_capacity_stuck (suc fuel) needed h = ground (arith, grow_capacity_stuck fuel needed h)

-- From a capacity of exactly 2 ^ 31, where more entries are needed, the loop that doubles it runs
-- out of any fuel: the guard lets the capacity pass, and it wraps to 0.
pub grow_capacity_spins :
    (fuel needed : ℕ) → 2 ^ 31 < needed → grow_capacity fuel 0x80000000 needed ≡ spinning
unfolding grow_capacity
grow_capacity_spins zero needed h = refl
grow_capacity_spins (suc fuel) needed h = ground (arith, grow_capacity_stuck fuel needed)
