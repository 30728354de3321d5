-- ===== src/Klib/Strings/Block.antt =====
-- Blocks of bytes.
use pepin_os.Base.{
  ℕ, zero, suc, ◌+◌, ◌-◌, ◌%◌, ◌≤◌, ◌≡◌, ap, ◌∙◌, ◌⊎◌, inl, inr, arith, ◌==◌, ltb, leb, ◌&&◌,
  if◌then◌else◌, update, Bool-cases,
}
use pepin_os.Base.Memory.{Memory}
use pepin_os.Klib.Strings.{kmemset, kmemcpy}

kmemset_lem :
    (dst c n : ℕ) (m : Memory) (x : ℕ)
    → kmemset dst c n m x ≡ (if leb dst x && ltb x (dst + n) then c % 256 else m x)
unfolding kmemset
kmemset_lem dst c zero m x = ground arith
kmemset_lem dst c (suc n) m x = kmemset_lem (suc dst) c n (update m dst (c % 256)) x ∙ ground arith

-- `kmemcpy` copies a block to a place apart from it, or below it, and changes nothing else.
kmemcpy_lem :
    (dst src n : ℕ) (m : Memory) (x : ℕ)
    → (dst ≤ src) ⊎ (src + n ≤ dst)
    → kmemcpy dst src n m x ≡ (if leb dst x && ltb x (dst + n) then m (src + (x - dst)) else m x)
unfolding kmemcpy
kmemcpy_lem dst src zero m x apart = ground arith
kmemcpy_lem dst src (suc n) m x apart =
    kmemcpy_lem (suc dst) (suc src) n (update m dst (m src)) x (ground (arith, apart))
    ∙ (elim (Bool-cases (dst == x)) [
      | inl here ↦ let e : src + (x - dst) ≡ src = ground arith in ground (arith, ap m e)
      | inr elsewhere ↦ elim (Bool-cases (ltb dst x)) [
        | inl behind ↦
            let e : suc src + (x - suc dst) ≡ src + (x - dst) = ground (arith, behind) in
            rw e (ground (arith, apart, behind))
        | inr before ↦ ground (arith, before)
      ]
    ])
