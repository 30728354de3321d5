-- ===== src/Mm/Pmm/Keeps.antt =====
-- An allocation keeps the invariant.
use pepin_os.Base.{ℕ, suc, ◌≡◌, arith}
use pepin_os.Mm.Pmm.{Pmm}
use pepin_os.Mm.Pmm.Count.{zeros, zeros-le, zeros_set}
use pepin_os.Mm.Pmm.Bitmap.{used}
use pepin_os.Mm.Pmm.Valid.{IsValid}
use pepin_os.Mm.Pmm.Alloc.{Took}

module _ {p q : Pmm} {k addr : ℕ} (v : IsValid p) (t : Took p k addr q) where
  pub count_of_taken : zeros (used p) p.total_pages ≡ suc (zeros (used q) p.total_pages)
  count_of_taken = zeros_set (used p) (used q) p.total_pages k t.was_free t.now t.inside

  pub Took-IsValid : IsValid q
  Took-IsValid = record {
    small = omega (arith, t.total, v.small);
    counted = ground (
      arith,
      t.total,
      t.count,
      v.counted,
      v.small,
      count_of_taken,
      zeros-le (used p) p.total_pages,
    );
    reserved = λ i h. ground (arith, t.now i, v.reserved i);
  }
