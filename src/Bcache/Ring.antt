-- ===== src/Bcache/Ring.antt =====
-- The list of slots of kernel/blk/bcache.c holds every slot once, whatever is called.
use drunix_os.Base.{
  ℕ, zero, suc, ◌+◌, ◌<◌, ◌≡◌, refl, ap, ◌∙◌, true, false, not, ◌&&◌, List, [], ◌∷◌, arith,
  ℕ_discrete, ltb, ◌==◌, length, length-append,
}
use drunix_os.Bcache.Cache.{Cache, Slot, detach, touch, demote, push_each, blank_all, init}
use drunix_os.Bcache.Order.{
  occurs, distinct, occurs-snoc, occurs-cons, distinct-cons, distinct-snoc,
}

-- Every index of a slot is in the list, once, and no other.
pub record IsRing (n : ℕ) (order : List ℕ) : Type 0 where
  pub apart : distinct order ≡ true
  pub size : length order ≡ n
  pub full : (i : ℕ) → occurs i order ≡ ltb i n

occurs-detach :
    (order : List ℕ) (i j : ℕ)
    → distinct order ≡ true
    → occurs j (detach order i) ≡ (not (i == j) && occurs j order)
unfolding detach occurs distinct
occurs-detach [] i j d = ground arith
occurs-detach (k ∷ order) i j d =
    let rest = occurs-detach order i j (ground arith) in
    elim (ℕ_discrete k i) [
      | yes p ↦
          let e : (k == i) ≡ true = ground arith in
          rw e (elim (ℕ_discrete i j) [ yes q ↦ ground arith | no q ↦ ground arith ])
      | no p ↦
          let e : (k == i) ≡ false = ground arith in
          rw e (elim (ℕ_discrete i j) [ yes q ↦ ground arith | no q ↦ ground arith ])
    ]

distinct-detach :
    (order : List ℕ) (i : ℕ) → distinct order ≡ true → distinct (detach order i) ≡ true
unfolding detach distinct
distinct-detach [] i d = refl
distinct-detach (k ∷ order) i d =
    let rest = distinct-detach order i (ground arith) in
    let kept = occurs-detach order i k (ground arith) in
    elim (ℕ_discrete k i) [
      | yes p ↦ let e : (k == i) ≡ true = ground arith in rw e (ground arith)
      | no p ↦ let e : (k == i) ≡ false = ground arith in rw e (ground arith)
    ]

length-detach :
    (order : List ℕ) (i : ℕ) → occurs i order ≡ true → suc (length (detach order i)) ≡ length order
unfolding detach occurs
length-detach [] i there = absurd (cc)
length-detach (k ∷ order) i there = elim (ℕ_discrete k i) [
  | yes p ↦ let e : (k == i) ≡ true = ground arith in rw e refl
  | no p ↦
      let e : (k == i) ≡ false = ground arith in
      let rest = length-detach order i (ground arith) in rw e (ap suc rest)
]

pub touch-IsRing : (n i : ℕ) (order : List ℕ) → IsRing n order → i < n → IsRing n (touch order i)
unfolding touch
touch-IsRing n i order r below =
    let there : occurs i order ≡ true = r.full i ∙ ground arith in
    let gone = occurs-detach order i i r.apart in
    record {
      apart = distinct-cons i (detach order i) ∙ ground (arith, distinct-detach order i r.apart);
      size = length-detach order i there ∙ r.size;
      full = λ j.
          let known = r.full j in
          let kept = occurs-detach order i j r.apart in
          occurs-cons j i (detach order i)
          ∙ elim (ℕ_discrete i j) [ yes q ↦ ground arith | no q ↦ ground arith ];
    }

pub demote-IsRing : (n i : ℕ) (order : List ℕ) → IsRing n order → i < n → IsRing n (demote order i)
unfolding demote
demote-IsRing n i order r below =
    let there : occurs i order ≡ true = r.full i ∙ ground arith in
    let gone = occurs-detach order i i r.apart in
    record {
      apart =
          distinct-snoc (detach order i) i
          ∙ distinct-cons i (detach order i)
          ∙ ground (arith, distinct-detach order i r.apart);
      size =
          omega
            (arith, length-append (detach order i) (i ∷ []), length-detach order i there, r.size);
      full = λ j.
          let known = r.full j in
          let kept = occurs-detach order i j r.apart in
          occurs-snoc j (detach order i) i
          ∙ elim (ℕ_discrete i j) [ yes q ↦ ground arith | no q ↦ ground arith ];
    }

push_each-IsRing :
    (n i : ℕ) (order : List ℕ) → IsRing i order → IsRing (i + n) (push_each n i order)
unfolding push_each
push_each-IsRing zero i order r = let e : i + 0 ≡ i = omega arith in rw e r
push_each-IsRing (suc n) i order r =
    let e : i + suc n ≡ i + 1 + n = omega arith in
    let out = r.full i in
    rw e (
      push_each-IsRing n (i + 1) (i ∷ order) (record {
        apart = distinct-cons i order ∙ ground (arith, r.apart);
        size = omega (arith, r.size);
        full = λ j. let known = r.full j in occurs-cons j i order ∙ ground arith;
      }))

abbrev pub Ringed : {S X : Type 0} → Cache S X → Type 0
Ringed c = IsRing (length c.slots) c.order

length-blank_all : {X : Type 0} (slots : List (Slot X)) → length (blank_all slots) ≡ length slots
unfolding blank_all
length-blank_all [] = refl
length-blank_all (s ∷ slots) = ap suc (length-blank_all slots)

-- Whatever the cache held before.
pub init-Ringed : {S X : Type 0} (c : Cache S X) → Ringed (init c)
unfolding init
init-Ringed c =
    let none_yet : IsRing 0 [] = record {
      apart = unfold distinct in refl;
      size = refl;
      full = λ i. unfold occurs in ground arith;
    } in
    let all = push_each-IsRing (length c.slots) 0 [] none_yet in
    let n : length (blank_all c.slots) ≡ 0 + length c.slots =
      length-blank_all c.slots ∙ omega arith in
    rw n all
