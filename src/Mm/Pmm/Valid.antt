-- ===== src/Mm/Pmm/Valid.antt =====
-- The invariant of the page allocator, and that each operation keeps it.
use pepin_os.Base.{
  ℕ, zero, suc, ◌+◌, ◌-◌, ◌/◌, ◌%◌, ◌^◌, ◌≤◌, ◌<◌, ◌≡◌, refl, arith, ltb, leb, min, ◌&&◌,
  if◌then◌else◌, for_range, update, for_range-update,
}
use pepin_os.Base.Bits.{bit, bit-zero, bit-complement}
use pepin_os.Mm.Pmm.{Pmm, release, init, set_free}
use pepin_os.Mm.Pmm.Count.{zeros, zeros_set, zeros-between}
use pepin_os.Mm.Pmm.Bitmap.{used, used-set_free}

-- The bitmap covers the machine, `free_pages` counts its zeros, and the first 4 MB are taken.
pub record IsValid (p : Pmm) : Type 0 where
  pub small : p.total_pages ≤ 8192
  pub counted : p.free_pages ≡ zeros (used p) p.total_pages
  pub reserved : (i : ℕ) → i < 1024 → used p i ≡ 1

bit-ones : (k : ℕ) → k < 32 → bit 0xFFFF_FFFF k ≡ 1
bit-ones k h = ground (arith, bit-complement 32 0 k, bit-zero k)

-- Taking one zero less.
zeros_release :
    (p : Pmm) (i n : ℕ)
    → used p i ≡ 1
    → i < n
    → zeros (used (set_free i p)) n ≡ suc (zeros (used p) n)
zeros_release p i n taken lt =
    zeros_set (used (set_free i p)) (used p) n i (ground (arith, used-set_free i p i))
      (λ j. ground (arith, used-set_free i p j)) lt

-- What the second loop of `pmm_init` has done after `n` rounds from page `i`.
record Released (p : Pmm) (i n : ℕ) (q : Pmm) : Type 0 where
  total : q.total_pages ≡ p.total_pages
  count : q.free_pages ≡ p.free_pages + n
  pages : (j : ℕ) → used q j ≡ (if leb i j && ltb j (i + n) then 0 else used p j)

release_loop :
    (n i : ℕ) (p : Pmm) → p.free_pages + n < 2 ^ 32 → Released p i n (for_range n i release p)
unfolding release set_free
release_loop zero i p small = record {
  total = refl;
  count = omega arith;
  pages = λ j. ground arith;
}
release_loop (suc n) i p small =
    let rest = release_loop n (suc i) (release i p) (omega arith) in
    record {
      total = rest.total;
      count = ground (arith, rest.count);
      pages = λ j. ground (arith, rest.pages j, used-set_free i p j);
    }

-- Before any release every page is taken.
abbrev filled : (ℕ → ℕ) → ℕ → Pmm
filled b total = record {
  bitmap = for_range 256 0 (λ k t. update t k 0xFFFF_FFFF) b;
  total_pages = total;
  free_pages = 0;
}

used-filled : (b : ℕ → ℕ) (total i : ℕ) → i < 8192 → used (filled b total) i ≡ 1
used-filled b total i h =
    ground (arith, for_range-update 256 0 (λ _. 0xFFFF_FFFF) b (i / 32), bit-ones (i % 32))

-- The number of pages of the machine that `pmm_init` is told of, 32 MB at most.
abbrev pub machine_pages : ℕ → ℕ
machine_pages mem_size = if ltb 8192 (mem_size / 4096) then 8192 else mem_size / 4096

module _ (mem_size : ℕ) (p : Pmm) where
  init-Released :
      Released
        (filled p.bitmap (machine_pages mem_size))
        1024
        (machine_pages mem_size - 1024)
        (init mem_size p)
  unfolding init
  init-Released =
      release_loop (machine_pages mem_size - 1024) 1024 (filled p.bitmap (machine_pages mem_size))
        (ground arith)

  used-init :
      (i : ℕ)
      → i < 8192
      → used (init mem_size p) i ≡ (if leb 1024 i && ltb i (machine_pages mem_size) then 0 else 1)
  used-init i h =
      ground (arith, init-Released.pages i, used-filled p.bitmap (machine_pages mem_size) i)

  init-IsValid : IsValid (init mem_size p)
  init-IsValid = record {
    small = ground (arith, init-Released.total);
    counted = ground (
      arith,
      init-Released.count,
      init-Released.total,
      zeros-between (used (init mem_size p)) 1024 (machine_pages mem_size)
          (λ i h. ground (arith, used-init i)),
    );
    reserved = λ i h. ground (arith, used-init i);
  }

  -- `pmm_init` makes the allocator valid, whatever it held before: exactly the pages from 4 MB up
  -- to the end of the memory that it is told of, or to 32 MB if that is more, are free, and
  -- `free_pages` is their number.
  pub init_lem :
      IsValid (init mem_size p)
      × ((init mem_size p).total_pages ≡ min (mem_size / 4096) 8192)
      × ((init mem_size p).free_pages ≡ min (mem_size / 4096) 8192 - 1024)
      × ((i : ℕ)
          → i < 8192
          → used (init mem_size p) i
            ≡ (if leb 1024 i && ltb i (min (mem_size / 4096) 8192) then 0 else 1))
  init_lem = (
    init-IsValid,
    ground (arith, init-Released.total),
    ground (arith, init-Released.count),
    λ i h. ground (arith, used-init i),
  )
