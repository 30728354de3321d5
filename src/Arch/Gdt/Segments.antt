-- ===== src/Arch/Gdt/Segments.antt =====
-- What `init_gdt` of arch/gdt.c leaves in memory: the segments that the processor finds.
use pepin_os.Base.{
  ℕ, ◌+◌, ◌-◌, ◌*◌, ◌/◌, ◌%◌, ◌^◌, ◌≤◌, ◌<◌, ◌≡◌, refl, sym, ◌∙◌, arith, ltb, leb, bit_and, true,
  ◌&&◌,
}
use pepin_os.Base.{for_range-update_at}
use pepin_os.Base.Bits.Masks.{bit_and_low, bit_and_shifted}
use pepin_os.Arch.Gdt.{init_gdt_desc, desc_byte, kgdt, init_gdt}

-- What the processor reads of the descriptor at an address: its base, limit, type and flags.
abbrev pub segment_base : (ℕ → ℕ) → ℕ → ℕ
segment_base mem a = mem (a + 2) + 2 ^ 8 * mem (a + 3) + 2 ^ 16 * mem (a + 4) + 2 ^ 24 * mem (a + 7)

abbrev pub segment_limit : (ℕ → ℕ) → ℕ → ℕ
segment_limit mem a = mem (a + 0) + 2 ^ 8 * mem (a + 1) + 2 ^ 16 * (mem (a + 6) % 16)

abbrev pub segment_type : (ℕ → ℕ) → ℕ → ℕ
segment_type mem a = mem (a + 5)

abbrev pub segment_flags : (ℕ → ℕ) → ℕ → ℕ
segment_flags mem a = mem (a + 6) / 16

-- A segment as the processor sees it.
abbrev pub IsSegment : (ℕ → ℕ) → (a base limit type flags : ℕ) → Type 0
IsSegment mem a base limit type flags =
    (segment_base mem a ≡ base)
    × (segment_limit mem a ≡ limit)
    × (segment_type mem a ≡ type)
    × (segment_flags mem a ≡ flags)

-- The seven segments behind the null descriptor of the table at an address.
abbrev pub Segments : (ℕ → ℕ) → (a ktss : ℕ) → Type 0
Segments mem a ktss =
    IsSegment mem (a + 0x08) 0 0xFFFFF 0x9B 13
    × IsSegment mem (a + 0x10) 0 0xFFFFF 0x93 13
    × IsSegment mem (a + 0x18) 0 0 0x97 13
    × IsSegment mem (a + 0x20) 0 0xFFFFF 0xFF 13
    × IsSegment mem (a + 0x28) 0 0xFFFFF 0xF3 13
    × IsSegment mem (a + 0x30) 0 0 0xF7 13
    × IsSegment mem (a + 0x38) ktss 104 0x89 0

masked : (k a b w : ℕ) → ((b * 2 ^ k) ≡ w) → bit_and a w ≡ bit_and (a / 2 ^ k) b * 2 ^ k
masked k a b w e = rw (sym e) (bit_and_shifted k a b)

desc_lem :
    (base limite acces other : ℕ)
    → let d = init_gdt_desc base limite acces other in
      (d.lim0_15 ≡ limite % 65536)
      × (d.base0_15 ≡ base % 65536)
      × (d.base16_23 ≡ base / 65536 % 256)
      × (d.lim16_19 ≡ limite / 65536 % 16)
      × (d.other ≡ other % 16)
      × (d.base24_31 ≡ base / 16777216 % 256)
      × (d.acces ≡ acces)
unfolding init_gdt_desc
desc_lem base limite acces other = (
  bit_and_low 16 limite,
  bit_and_low 16 base,
  omega (arith, masked 16 base 255 0xFF0000 refl, bit_and_low 8 (base / 65536)),
  omega (arith, masked 16 limite 15 0xF0000 refl, bit_and_low 4 (limite / 65536)),
  bit_and_low 4 other,
  omega (arith, masked 24 base 255 0xFF000000 refl, bit_and_low 8 (base / 16777216)),
  refl,
)

-- The processor reads the base, the low 20 bits of the limit, the type and the low 4 bits of the
-- flags that `init_gdt_desc` was given from the descriptor's bytes, wherever they stand.
pub init_gdt_desc_lem :
    (base limite acces other : ℕ) (mem : ℕ → ℕ) (a : ℕ)
    → base < 2 ^ 32
    → ((j : ℕ) → j < 8 → mem (a + j) ≡ desc_byte (init_gdt_desc base limite acces other) j)
    → IsSegment mem a base (limite % 2 ^ 20) acces (other % 16)
init_gdt_desc_lem base limite acces other mem a hb hm =
    let d = desc_lem base limite acces other in
    (
      omega (
        arith,
        d,
        hm 2 (omega arith),
        hm 3 (omega arith),
        hm 4 (omega arith),
        hm 7 (omega arith),
      ),
      omega (arith, d, hm 0 (omega arith), hm 1 (omega arith), hm 6 (omega arith)),
      omega (arith, d, hm 5 (omega arith)),
      omega (arith, d, hm 6 (omega arith)),
    )

-- The bytes of the table in memory.
init_gdt-byte :
    (ktss : ℕ) (mem : ℕ → ℕ) (i j : ℕ)
    → i < 8
    → j < 8
    → (init_gdt ktss mem).1 (0xD00 + 8 * i + j) ≡ desc_byte (kgdt ktss i) j
unfolding init_gdt
init_gdt-byte ktss mem i j hi hj =
    let q : (0xD00 + 8 * i + j - 0xD00) / 8 ≡ i = omega arith in
    let r : (0xD00 + 8 * i + j - 0xD00) % 8 ≡ j = omega arith in
    let inside : leb (0xD00 + 0) (0xD00 + 8 * i + j) && ltb (0xD00 + 8 * i + j) (0xD00 + 0 + 64)
        ≡ true =
      ground arith in
    for_range-update_at 64 0 0xD00 (λ k. desc_byte (kgdt ktss (k / 8)) (k % 8)) mem
      (0xD00 + 8 * i + j)
    ∙ rw (inside, q, r) refl

-- If the address of the TSS has 32 bits, after `init_gdt` the register holds the base 0xD00 and the limit
-- 64, and the processor finds behind that base, at the selectors 0x08 to 0x38, the kernel's code, data and
-- stack, the user's code (0x20), data (0x28) and stack (0x30), and the task state segment at its address.
pub init_gdt_lem :
    (ktss : ℕ) (mem : ℕ → ℕ)
    → ktss < 2 ^ 32
    → let (gdtr, m) = init_gdt ktss mem in
      (gdtr.base ≡ 0xD00) × (gdtr.limite ≡ 64) × Segments m gdtr.base ktss
unfolding init_gdt kgdt
init_gdt_lem ktss mem h =
    let m = (init_gdt ktss mem).1 in
    (
      refl,
      refl,
      (
        init_gdt_desc_lem 0 0xFFFFF 0x9B 13 m 0xD08 (omega arith)
            (λ j. init_gdt-byte ktss mem 1 j (omega arith)),
        init_gdt_desc_lem 0 0xFFFFF 0x93 13 m 0xD10 (omega arith)
            (λ j. init_gdt-byte ktss mem 2 j (omega arith)),
        init_gdt_desc_lem 0 0 0x97 13 m 0xD18 (omega arith)
            (λ j. init_gdt-byte ktss mem 3 j (omega arith)),
        init_gdt_desc_lem 0 0xFFFFF 0xFF 13 m 0xD20 (omega arith)
            (λ j. init_gdt-byte ktss mem 4 j (omega arith)),
        init_gdt_desc_lem 0 0xFFFFF 0xF3 13 m 0xD28 (omega arith)
            (λ j. init_gdt-byte ktss mem 5 j (omega arith)),
        init_gdt_desc_lem 0 0 0xF7 13 m 0xD30 (omega arith)
            (λ j. init_gdt-byte ktss mem 6 j (omega arith)),
        init_gdt_desc_lem ktss 104 0x89 0 m 0xD38 h (λ j. init_gdt-byte ktss mem 7 j (omega arith)),
      ),
    )

IsSegment-same :
    (m m' : ℕ → ℕ) (a : ℕ) {base limit type flags : ℕ}
    → ((j : ℕ) → j < 8 → m' (a + j) ≡ m (a + j))
    → IsSegment m a base limit type flags
    → IsSegment m' a base limit type flags
IsSegment-same m m' a e g =
    rw
      (
        e 0 (omega arith),
        e 1 (omega arith),
        e 2 (omega arith),
        e 3 (omega arith),
        e 4 (omega arith),
        e 5 (omega arith),
        e 6 (omega arith),
        e 7 (omega arith),
      )
      g

-- The same 64 bytes make the same segments.
pub Segments-same :
    (m m' : ℕ → ℕ) (ktss : ℕ)
    → ((b : ℕ) → 0xD00 ≤ b → b < 0xD40 → m' b ≡ m b)
    → Segments m 0xD00 ktss
    → Segments m' 0xD00 ktss
Segments-same m m' ktss e (s1, s2, s3, s4, s5, s6, s7) =
    let at : (a : ℕ) → 0xD00 ≤ a → a < 0xD39 → (j : ℕ) → j < 8 → m' (a + j) ≡ m (a + j) =
      λ a lo hi j h. e (a + j) (omega (arith, lo)) (omega (arith, hi, h)) in
    (
      IsSegment-same m m' 0xD08 (at 0xD08 (omega arith) (omega arith)) s1,
      IsSegment-same m m' 0xD10 (at 0xD10 (omega arith) (omega arith)) s2,
      IsSegment-same m m' 0xD18 (at 0xD18 (omega arith) (omega arith)) s3,
      IsSegment-same m m' 0xD20 (at 0xD20 (omega arith) (omega arith)) s4,
      IsSegment-same m m' 0xD28 (at 0xD28 (omega arith) (omega arith)) s5,
      IsSegment-same m m' 0xD30 (at 0xD30 (omega arith) (omega arith)) s6,
      IsSegment-same m m' 0xD38 (at 0xD38 (omega arith) (omega arith)) s7,
    )

pub init_gdt-base : (ktss : ℕ) (mem : ℕ → ℕ) → (init_gdt ktss mem).0.base ≡ 0xD00
unfolding init_gdt
init_gdt-base ktss mem = refl
