-- ===== src/Base/Memory.antt =====
-- Memory as the byte at each address, with its little-endian 32-bit words.
use Prim.Native.Nat.{ℕ, zero, suc, ◌+◌, ◌-◌, ◌*◌, ◌/◌, ◌%◌, ◌^◌, ◌≤◌, ◌<◌}
use mathlib.Core.Path.{◌≡◌, refl, sym, ap, ◌∙◌}
use mathlib.Core.Logic.{◌≢◌, ◌⊎◌, inl, inr}
use mathlib.Core.Bool.{◌&&◌}
use native.Mathlib.Omega.{arith}
use pepin_os.Base.Tests.{ltb, leb, ◌==◌, Bool-cases, if◌then◌else◌}
use pepin_os.Base.Arrays.{update, for_range, for_range-update_at}
use pepin_os.Base.Text.{le32}

abbrev pub Memory : Type 0
Memory = ℕ → ℕ

-- `*(u32 *) a`
unfoldable pub read32 : Memory → ℕ → ℕ
read32 m a = le32 m a % 2 ^ 32

-- `*(u32 *) a = w`
unfoldable pub write32 : Memory → ℕ → ℕ → Memory
write32 m a w =
    update
      (update (update (update m a (w % 256)) (a + 1) (w / 256 % 256)) (a + 2) (w / 65536 % 256))
      (a + 3) (w / 16777216 % 256)

-- The byte `j` of a word.
abbrev pub word_byte : ℕ → ℕ → ℕ
word_byte w j =
    if j == 0
    then w % 256
    else if j == 1
    then w / 256 % 256
    else if j == 2
    then w / 65536 % 256
    else w / 16777216 % 256

pub write32-byte :
    (m : Memory) (a w x : ℕ)
    → write32 m a w x ≡ (if leb a x && ltb x (a + 4) then word_byte w (x - a) else m x)
unfolding write32
write32-byte m a w x = ground arith

word_of_bytes :
    (w : ℕ)
    → w < 2 ^ 32
    → w % 256 + 256 * (w / 256 % 256) + 65536 * (w / 65536 % 256) + 16777216 * (w / 16777216 % 256)
      ≡ w
word_of_bytes w h = omega arith

-- Memory that is read at words only: addresses that 4 divides.
pub read32-write32 :
    (m : Memory) (a w b : ℕ)
    → a % 4 ≡ 0
    → b % 4 ≡ 0
    → w < 2 ^ 32
    → read32 (write32 m a w) b ≡ (if a == b then w else read32 m b)
unfolding read32 write32
read32-write32 m a w b ha hb hw = elim (Bool-cases (a == b)) [
  | inl same ↦
      let e : a ≡ b = ground arith in rw same (rw (sym e) (ground (arith, word_of_bytes w hw)))
  | inr other ↦ rw other (ground arith)
]

pub read32-lt : (m : Memory) (a : ℕ) → read32 m a < 2 ^ 32
unfolding read32
read32-lt m a = omega arith

-- `for (k = i; k < i + n; k++) ((u32 *) at)[k] = f(k);`
pub fill32 :
    (n i at : ℕ) (f : ℕ → ℕ) (m : Memory) (b : ℕ)
    → at % 4 ≡ 0
    → b % 4 ≡ 0
    → ((k : ℕ) → k < i + n → f k < 2 ^ 32)
    → read32 (for_range n i (λ k r. write32 r (at + 4 * k) (f k)) m) b
      ≡ (if leb (at + 4 * i) b && ltb b (at + 4 * (i + n)) then f ((b - at) / 4) else read32 m b)
fill32 zero i at f m b ha hb hf = ground arith
fill32 (suc n) i at f m b ha hb hf =
    fill32 n (suc i) at f (write32 m (at + 4 * i) (f i)) b ha hb (λ k h. hf k (omega arith))
    ∙ ap
        (λ (old : ℕ).
          if leb (at + 4 * suc i) b && ltb b (at + 4 * (suc i + n)) then f ((b - at) / 4) else old)
        (read32-write32 m (at + 4 * i) (f i) b (omega arith) hb (hf i (omega arith)))
    ∙ (elim (Bool-cases (at + 4 * i == b)) [
      | inl here ↦ let e : (b - at) / 4 ≡ i = ground arith in ground (arith, e)
      | inr elsewhere ↦ ground arith
    ])

-- `for (k = 0; k < n; k++) ((u8 *) at)[k] = 0;`
pub read32-zeroed :
    (n at : ℕ) (m : Memory) (b : ℕ)
    → at % 4 ≡ 0
    → n % 4 ≡ 0
    → b % 4 ≡ 0
    → read32 (for_range n 0 (λ k r. update r (at + k) 0) m) b
      ≡ (if leb at b && ltb b (at + n) then 0 else read32 m b)
unfolding read32
read32-zeroed n at m b ha hn hb =
    let z = for_range-update_at n 0 at (λ _. 0) m in
    ground (arith, z b, z (b + 1), z (b + 2), z (b + 3))

copied_word :
    (n i at src b : ℕ) (m m' : Memory)
    → at % 4 ≡ 0
    → src % 4 ≡ 0
    → b % 4 ≡ 0
    → (at + 4 * (i + suc n) ≤ src) ⊎ (src + 4 * (i + suc n) ≤ at)
    → ((x : ℕ)
        → x % 4 ≡ 0
        → read32 m' x ≡ (if at + 4 * i == x then read32 m (src + 4 * i) else read32 m x))
    → (if leb (at + 4 * suc i) b && ltb b (at + 4 * (suc i + n))
        then read32 m' (src + (b - at))
        else read32 m' b)
      ≡ (if leb (at + 4 * i) b && ltb b (at + 4 * (i + suc n))
          then read32 m (src + (b - at))
          else read32 m b)
copied_word n i at src b m m' ha hs hb apart h = elim (Bool-cases (at + 4 * i == b)) [
  | inl here ↦
      let e : src + (b - at) ≡ src + 4 * i = ground arith in ground (arith, h b hb, ap (read32 m) e)
  | inr elsewhere ↦ elim (Bool-cases (leb (at + 4 * suc i) b && ltb b (at + 4 * (suc i + n)))) [
    | inl later ↦ ground (arith, h (src + (b - at)) (ground arith), apart)
    | inr outside ↦ ground (arith, h b hb)
  ]
]

-- `for (k = i; k < i + n; k++) ((u32 *) at)[k] = ((u32 *) src)[k];` between apart arrays.
pub copy32 :
    (n i at src : ℕ) (m : Memory) (b : ℕ)
    → at % 4 ≡ 0
    → src % 4 ≡ 0
    → b % 4 ≡ 0
    → (at + 4 * (i + n) ≤ src) ⊎ (src + 4 * (i + n) ≤ at)
    → read32 (for_range n i (λ k r. write32 r (at + 4 * k) (read32 r (src + 4 * k))) m) b ≡ (
        if leb (at + 4 * i) b && ltb b (at + 4 * (i + n))
        then read32 m (src + (b - at))
        else read32 m b)
copy32 zero i at src m b ha hs hb apart = ground arith
copy32 (suc n) i at src m b ha hs hb apart =
    let m' = write32 m (at + 4 * i) (read32 m (src + 4 * i)) in
    copy32 n (suc i) at src m' b ha hs hb (ground (arith, apart))
    ∙ copied_word n i at src b m m' ha hs hb apart (λ x hx.
      read32-write32 m (at + 4 * i) (read32 m (src + 4 * i)) x (omega arith) hx
        (read32-lt m (src + 4 * i)))

pub read32-written : (m : Memory) (a w : ℕ) → a % 4 ≡ 0 → w < 2 ^ 32 → read32 (write32 m a w) a ≡ w
read32-written m a w ha hw = read32-write32 m a w a ha ha hw ∙ ground arith

pub read32-kept :
    (m : Memory) (a w b : ℕ)
    → a % 4 ≡ 0
    → b % 4 ≡ 0
    → w < 2 ^ 32
    → a ≢ b
    → read32 (write32 m a w) b ≡ read32 m b
read32-kept m a w b ha hb hw ne = read32-write32 m a w b ha hb hw ∙ ground arith

-- The bytes outside of an array of words that is written.
pub fill32_outside :
    (n i at : ℕ) (f : ℕ → ℕ) (m : Memory) (x : ℕ)
    → (x < at + 4 * i) ⊎ (at + 4 * (i + n) ≤ x)
    → for_range n i (λ k r. write32 r (at + 4 * k) (f k)) m x ≡ m x
fill32_outside zero i at f m x h = refl
fill32_outside (suc n) i at f m x h =
    fill32_outside n (suc i) at f (write32 m (at + 4 * i) (f i)) x (ground (arith, h))
    ∙ write32-byte m (at + 4 * i) (f i) x
    ∙ ground (arith, h)

pub read32_same :
    (m m' : Memory) (a : ℕ) → ((x : ℕ) → a ≤ x → x < a + 4 → m' x ≡ m x) → read32 m' a ≡ read32 m a
unfolding read32
read32_same m m' a h = ground (
  arith,
  h a (omega arith) (omega arith),
  h (a + 1) (omega arith) (omega arith),
  h (a + 2) (omega arith) (omega arith),
  h (a + 3) (omega arith) (omega arith),
)

-- A byte that no round of a loop writes.
pub for_range_outside :
    (n i : ℕ) (step : ℕ → Memory → Memory) (m : Memory) (x : ℕ)
    → ((k : ℕ) (r : Memory) → i ≤ k → k < i + n → step k r x ≡ r x)
    → for_range n i step m x ≡ m x
for_range_outside zero i step m x h = refl
for_range_outside (suc n) i step m x h =
    for_range_outside n (suc i) step (step i m) x (λ k r lo hi. h k r (omega arith) (omega arith))
    ∙ h i m (omega arith) (omega arith)

-- `for (k = i; k < i + n; k++) dst[k] = src[k];` from bytes below the others.
pub copy_below :
    (n i dst src : ℕ) (m : Memory) (x : ℕ)
    → src + (i + n) ≤ dst
    → for_range n i (λ k r. update r (dst + k) (r (src + k))) m x
      ≡ (if leb (dst + i) x && ltb x (dst + i + n) then m (src + (x - dst)) else m x)
copy_below zero i dst src m x h = ground arith
copy_below (suc n) i dst src m x h =
    copy_below n (suc i) dst src (update m (dst + i) (m (src + i))) x (omega arith)
    ∙ (elim (Bool-cases (dst + i == x)) [
      | inl here ↦ let e : src + (x - dst) ≡ src + i = ground arith in ground (arith, ap m e)
      | inr elsewhere ↦ ground arith
    ])
