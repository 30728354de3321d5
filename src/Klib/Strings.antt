-- ===== src/Klib/Strings.antt =====
-- lib/string.c: strings and blocks of bytes in memory. The loops over a string have fuel, which counts
-- the bytes that they look at; `none` is what a loop without fuel gives.
pub mod Text
pub mod Order
pub mod Prefix
pub mod Block
mod Tests
use pepin_os.Base.{
  ℕ, zero, suc, ◌+◌, ◌-◌, ◌*◌, ◌/◌, ◌%◌, ◌^◌, ◌≤◌, ◌<◌, ◌≡◌, refl, sym, ap, ◌∙◌, ◌≢◌, ◌⊎◌, inl, inr,
  arith, ◌==◌, ltb, leb, min, max, bit_and, bit_or, Bool, true, false, not, ◌&&◌, ◌||◌, Option,
  none, some, List, [], ◌∷◌, ◌++◌, map, if◌then◌else◌, for_range, update, for_range-update,
  update_self, length, get_elem?, length-append, Bool-cases, Option-cases, u32_mod, add32, sub32,
  mul32, shl32, shl32-one, pow-lt-u32, ltb→lt, lt→ltb, ltb→le, ==_iff,
}
use pepin_os.Base.Int.{ℤ, sub_ℕ, pos}
use pepin_os.Base.Memory.{Memory}

unfoldable pub strlen_from : (fuel n s : ℕ) → Memory → Option ℕ
strlen_from zero n s m = none
strlen_from (suc fuel) n s m =
    let rest = strlen_from fuel (suc n) s m in if m (s + n) == 0 then some n else rest

unfoldable pub kstrlen : (fuel s : ℕ) → Memory → Option ℕ
kstrlen fuel s m = strlen_from fuel 0 s m

-- The condition `*s && *t && *s == *t`.
abbrev pub goes_on : (s t : ℕ) → Memory → Bool
goes_on s t m = not (m s == 0) && not (m t == 0) && (m s == m t)

-- `(unsigned char)*s - (unsigned char)*t`, on bytes.
unfoldable pub kstrcmp : (fuel s t : ℕ) → Memory → Option ℤ
kstrcmp zero s t m = none
kstrcmp (suc fuel) s t m =
    let rest = kstrcmp fuel (suc s) (suc t) m in
    if goes_on s t m then rest else some (sub_ℕ (m s) (m t))

-- The loop ends with `n`, which is the fuel.
unfoldable pub kstrncmp : (s t n : ℕ) → Memory → ℤ
kstrncmp s t zero m = pos 0
kstrncmp s t (suc n) m =
    let rest = kstrncmp (suc s) (suc t) n m in if goes_on s t m then rest else sub_ℕ (m s) (m t)

-- `while ((*d++ = *src++));`
unfoldable pub kstrcpy : (fuel dst src : ℕ) → Memory → Option Memory
kstrcpy zero dst src m = none
kstrcpy (suc fuel) dst src m =
    let m' = update m dst (m src) in
    let rest = kstrcpy fuel (suc dst) (suc src) m' in if m src == 0 then some m' else rest

-- `c` is an `int`, of which the low byte is stored.
unfoldable pub kmemset : (dst c n : ℕ) → Memory → Memory
kmemset dst c zero m = m
kmemset dst c (suc n) m = kmemset (suc dst) c n (update m dst (c % 256))

unfoldable pub kmemcpy : (dst src n : ℕ) → Memory → Memory
kmemcpy dst src zero m = m
kmemcpy dst src (suc n) m = kmemcpy (suc dst) (suc src) n (update m dst (m src))
