-- ===== src/Kmalloc/Sample.antt =====
-- An allocator that meets the interface: it hands out memory upwards and takes none back.
use z_os.Base.{ℕ, ◌+◌, ◌^◌, ◌≤◌, ◌<◌, refl, leb, if◌then◌else◌, arith}
use z_os.Kmalloc.{Kmalloc, IsKmalloc}

abbrev pub upwards : Kmalloc ℕ
upwards = record {
  kmalloc =
      λ n w. if leb (w.heap + n) (2 ^ 32) then (w.heap, record w { heap = w.heap + n }) else (0, w);
  kfree = λ p w. w;
}

-- What lies below the next address is in use.
abbrev pub Below : ℕ → ℕ → ℕ → Type 0
Below h p n = p + n ≤ h

abbrev pub Given : ℕ → ℕ → ℕ → Type 0
Given h p n = (0 < p) × (p + n ≤ h)

pub upwards-IsKmalloc : IsKmalloc upwards Below Given
upwards-IsKmalloc = record {
  owns = λ h p n b. b.1;
  not_null = λ h p n b. omega (arith, b);
  kept = λ n w q l o. ground arith;
  kept_block = λ n w q l b. ground arith;
  same = λ n w q l o i h. ground arith;
  fresh = λ n w got. ground arith;
  apart = λ n w q l got o. ground arith;
  freed = λ w p n q l b o a. o;
  freed_block = λ w p n q l b o a. o;
  freed_same = λ w p n q l b o a i h. refl;
}
