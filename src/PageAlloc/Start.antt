-- ===== src/PageAlloc/Start.antt =====
-- page_alloc_init: the pages of the usable descriptors become free.
use native.Mathlib.Nat.{mod-add-div}
use z_os.Base.{
  ℕ, zero, suc, ◌+◌, ◌-◌, ◌*◌, ◌/◌, ◌%◌, ◌^◌, ◌≤◌, ◌<◌, ◌≡◌, ◌⊎◌, inl, inr, refl, true, ◌&&◌,
  Bool-cases, ok, leb, ◌==◌, ==-false, arith,
}
use z_os.Bits.Fields.{pow-pos}
use z_os.PageAlloc.{max_order, Pages, free_list_push, fitting_order, push_range}
use z_os.PageAlloc.Blocks.{IsFree, IsBlock, IsPages, Pushed, free_list_push-Pushed}

-- A block that starts here and fits.
record Fits (limit remaining start order : ℕ) : Type 0 where
  small : order ≤ limit
  within : 2 ^ order ≤ remaining
  index : ℕ
  aligned : start ≡ index * 2 ^ order

divides : (start m remaining : ℕ) → (leb m remaining && (start % m) == 0) ≡ true → start % m ≡ 0
divides start m remaining e = ground (arith, e)

fitting_order-Fits :
    (limit remaining start : ℕ)
    → 0 < remaining
    → Fits limit remaining start (fitting_order limit remaining start)
unfolding fitting_order
fitting_order-Fits zero remaining start r = record {
  small = omega arith;
  within = omega arith;
  index = start;
  aligned = omega arith;
}
fitting_order-Fits (suc limit) remaining start r =
    elim (Bool-cases (leb (2 ^ suc limit) remaining && (start % 2 ^ suc limit) == 0)) [
      | inl e ↦
          rw (e, fitting_order)
            (record {
              small = omega arith;
              within = ground (arith, e);
              index = start / 2 ^ suc limit;
              aligned = omega (
                arith,
                divides start (2 ^ suc limit) remaining e,
                mod-add-div start (2 ^ suc limit),
              );
            })
      | inr e ↦
          let f = fitting_order-Fits limit remaining start r in
          rw (e, fitting_order)
            (record {
              small = omega (arith, f.small);
              within = f.within;
              index = f.index;
              aligned = f.aligned;
            })
    ]

-- A page of a range.
abbrev pub InRange : (x start count : ℕ) → Type 0
InRange x start count = (start ≤ x) × (x < start + count)

-- The pages of a range became free, besides those that were.
pub record Covered (start count : ℕ) (s s' : Pages) : Type 0 where
  pub valid : IsPages s'
  pub from : (x : ℕ) → IsFree x s' → IsFree x s ⊎ InRange x start count
  pub to : (x : ℕ) → IsFree x s ⊎ InRange x start count → IsFree x s'

abbrev pub Unused : (start count : ℕ) → Pages → Type 0
Unused start count s = (x : ℕ) → InRange x start count → ¬ IsFree x s

range_split :
    (x start count n : ℕ)
    → n ≤ count
    → InRange x start count
    → InRange x start n ⊎ InRange x (start + n) (count - n)
range_split x start count n l (a, b) = ground (arith, l, a, b)

first_part : (x start count n : ℕ) → n ≤ count → InRange x start n → InRange x start count
first_part x start count n l (a, b) = (a, omega arith)

last_part :
    (x start count n : ℕ) → n ≤ count → InRange x (start + n) (count - n) → InRange x start count
last_part x start count n l (a, b) = (omega arith, omega arith)

then_Covered :
    (order start count : ℕ) (s s₁ s₂ : Pages)
    → 2 ^ order ≤ count
    → Pushed order start s s₁
    → Covered (start + 2 ^ order) (count - 2 ^ order) s₁ s₂
    → Covered start count s s₂
then_Covered order start count s s₁ s₂ l p c = record {
  valid = c.valid;
  from = λ x f. elim (c.from x f) [
    | inl g ↦ elim (p.from x g) [
      | inl h ↦ inl h
      | inr w ↦ inr (first_part x start count (2 ^ order) l w)
    ]
    | inr w ↦ inr (last_part x start count (2 ^ order) l w)
  ];
  to = λ x f. elim f [
    | inl h ↦ c.to x (inl (p.to x (inl h)))
    | inr w ↦ elim (range_split x start count (2 ^ order) l w) [
      | inl a ↦ c.to x (inl (p.to x (inr a)))
      | inr b ↦ c.to x (inr b)
    ]
  ];
}

range-IsBlock :
    (count start order : ℕ)
    → start + count ≤ 0x1000000
    → Fits max_order count start order
    → IsBlock order start
range-IsBlock count start order b f = record {
  small = f.small;
  index = f.index;
  aligned = f.aligned;
  below = omega (arith, f.within);
}

range_done : (fuel start : ℕ) (s : Pages) → push_range fuel 0 start s ≡ (ok, s)
unfolding push_range
range_done zero start s = refl
range_done (suc fuel) start s = refl

range_step :
    (fuel count start : ℕ) (s s₁ s₂ : Pages)
    → 0 < count
    → free_list_push (fitting_order max_order count start) start s ≡ (ok, s₁)
    → push_range fuel
        (count - 2 ^ fitting_order max_order count start)
        (start + 2 ^ fitting_order max_order count start)
        s₁
      ≡ (ok, s₂)
    → push_range (suc fuel) count start s ≡ (ok, s₂)
unfolding push_range
range_step fuel count start s s₁ s₂ p e f = rw (==-false count 0 (omega arith), e, push_range) f

-- A range of pages none of which is free, below the largest page: all of it becomes free, in blocks
-- that are aligned, when the fuel is at least its length.
pub push_range-Covered :
    (fuel count start : ℕ) (s : Pages)
    → count ≤ fuel
    → IsPages s
    → start + count ≤ 0x1000000
    → Unused start count s
    → (s' : Pages) × (push_range fuel count start s ≡ (ok, s')) × Covered start count s s'
push_range-Covered fuel zero start s l v b n = (
  s,
  range_done fuel start s,
  record {
    valid = v;
    from = λ x f. inl f;
    to = λ x f. elim f [ inl h ↦ h | inr w ↦ absurd (omega (arith, w.0, w.1)) ];
  },
)
push_range-Covered zero (suc count) start s l v b n = absurd (omega arith)
push_range-Covered (suc fuel) (suc count) start s l v b n =
    let order : ℕ = fitting_order max_order (suc count) start in
    let fits = fitting_order-Fits max_order (suc count) start (omega arith) in
    let (s₁, e₁, p) =
      free_list_push-Pushed order start s v (range-IsBlock (suc count) start order b fits)
        (λ x w. n x (first_part x start (suc count) (2 ^ order) fits.within w)) in
    let (s₂, e₂, c) =
      push_range-Covered fuel (suc count - 2 ^ order) (start + 2 ^ order) s₁
        (omega (arith, pow-pos order)) p.valid (omega (arith, fits.within))
        (λ x w f. elim (p.from x f) [
          | inl g ↦ n x (last_part x start (suc count) (2 ^ order) fits.within w) g
          | inr u ↦ omega (arith, w.0, u.1)
        ]) in
    (
      s₂,
      range_step fuel (suc count) start s s₁ s₂ (omega arith) e₁ e₂,
      then_Covered order start (suc count) s s₁ s₂ fits.within p c,
    )
