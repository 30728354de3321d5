-- ===== src/Mm/Paging/Kernel.antt =====
-- The kernel's address space.
use pepin_os.Base.{
  ℕ, zero, suc, ◌+◌, ◌-◌, ◌*◌, ◌/◌, ◌%◌, ◌^◌, ◌≤◌, ◌<◌, ◌≡◌, refl, ap, ◌∙◌, inl, inr, arith, ltb,
  leb, ◌&&◌, none, some, if◌then◌else◌, for_range, Bool-cases, add32,
}
use pepin_os.Base.{for_range-update_at}
use pepin_os.Base.Memory.{Memory, read32, write32, fill32, fill32_outside, read32-zeroed}
use pepin_os.Base.Bits.Masks.{bit_or_present_write_user}
use pepin_os.Mm.Paging.{
  memzero, identity_tables, init_paging, present_write_user, kernel_pd_addr, kernel_pt_addr,
}
use pepin_os.Mm.Paging.Translate.{
  entry, frame_of, translate, translate_entries, translate_absent, reached_lem,
}

-- The directory and the tables for the first 16 MB.
pub record KernelTables (mem : Memory) : Type 0 where
  pub directory : (i : ℕ) → i < 4 → entry mem 0x20_0000 i ≡ 0x20_1000 + 4096 * i + 7
  pub tables : (i : ℕ) → i < 4096 → entry mem 0x20_1000 i ≡ 4096 * i + 7

-- The loop with `addr` writes the entry of each page.
identity_loop :
    (n i : ℕ) (mem : Memory)
    → i + n ≤ 4096
    → for_range n i
        (λ k (s : Memory × ℕ).
          (write32 s.0 (kernel_pt_addr + 4 * k) (present_write_user s.1), add32 s.1 0x1000))
        (mem, 4096 * i)
      ≡ (
        for_range n i (λ k m. write32 m (kernel_pt_addr + 4 * k) (4096 * k + 7)) mem,
        4096 * (i + n),
      )
identity_loop zero i mem h = ap (λ (a : ℕ). (mem, 4096 * a)) (omega arith)
identity_loop (suc n) i mem h =
    let flags : present_write_user (4096 * i) ≡ 4096 * i + 7 =
      bit_or_present_write_user (4096 * i) (omega arith) in
    let next : add32 (4096 * i) 4096 ≡ 4096 * suc i = omega arith in
    let last : 4096 * (i + suc n) ≡ 4096 * (suc i + n) = omega arith in
    rw (flags, next, last)
      (identity_loop n (suc i) (write32 mem (kernel_pt_addr + 4 * i) (4096 * i + 7)) (omega arith))

read32-identity_tables :
    (mem : Memory) (b : ℕ)
    → b % 4 ≡ 0
    → read32 (identity_tables mem).0 b ≡ (
        if leb 0x20_1000 b && ltb b 0x20_5000
        then 4096 * ((b - 0x20_1000) / 4) + 7
        else read32 mem b)
unfolding identity_tables
read32-identity_tables mem b hb =
    ap (λ (s : Memory × ℕ). read32 s.0 b) (identity_loop 4096 0 mem (omega arith))
    ∙ fill32 4096 0 0x20_1000 (λ k. 4096 * k + 7) mem b refl hb (λ k h. omega arith)
    ∙ refl

pub read32-memzero :
    (at size : ℕ) (mem : Memory) (b : ℕ)
    → at % 4 ≡ 0
    → size % 4 ≡ 0
    → b % 4 ≡ 0
    → read32 (memzero at size mem) b ≡ (if leb at b && ltb b (at + size) then 0 else read32 mem b)
unfolding memzero
read32-memzero at size mem b ha hs hb = read32-zeroed size at mem b ha hs hb

-- Each word after `init_paging`.
read32-init_paging :
    (mem : Memory) (b : ℕ)
    → b % 4 ≡ 0
    → read32 (init_paging mem).1 b ≡ (
        if leb 0x20_0000 b && ltb b 0x20_0010
        then 0x20_1000 + 4096 * ((b - 0x20_0000) / 4) + 7
        else if leb 0x20_1000 b && ltb b 0x20_5000
        then 4096 * ((b - 0x20_1000) / 4) + 7
        else if leb 0x20_0000 b && ltb b 0x20_1000
        then 0
        else read32 mem b)
unfolding init_paging
read32-init_paging mem b hb =
    let zeroed = memzero 0x20_0000 4096 mem in
    fill32 4 0 0x20_0000 (λ i. present_write_user (kernel_pt_addr + 4096 * i))
      (identity_tables zeroed).0 b refl hb
      (λ k h. omega (arith, bit_or_present_write_user (kernel_pt_addr + 4096 * k) (omega arith)))
    ∙ ground (
      arith,
      read32-identity_tables zeroed b hb,
      read32-memzero 0x20_0000 4096 mem b refl refl hb,
      bit_or_present_write_user (kernel_pt_addr + 4096 * ((b - 0x20_0000) / 4)) (omega arith),
    )

pub init_paging-KernelTables : (mem : Memory) → KernelTables (init_paging mem).1
init_paging-KernelTables mem = record {
  directory = λ i h. ground (arith, read32-init_paging mem (0x20_0000 + 4 * i) (omega arith));
  tables = λ i h. ground (arith, read32-init_paging mem (0x20_1000 + 4 * i) (omega arith));
}

-- An address below 16 MB is its own translation by a directory that begins as the kernel's does.
pub identity :
    (mem : Memory) (pd v : ℕ)
    → KernelTables mem
    → ((i : ℕ) → i < 4 → entry mem pd i ≡ 0x20_1000 + 4096 * i + 7)
    → v < 2 ^ 24
    → translate mem pd v ≡ some (record { address = v; writable = 1; user = 1 })
identity mem pd v k first h =
    let pde = 0x20_1000 + 4096 * (v / 2 ^ 22) + 7 in
    let pte = 4096 * (v / 2 ^ 12) + 7 in
    let second : entry mem (frame_of pde) (v / 2 ^ 12 % 1024) ≡ pte =
      ap (read32 mem) (omega arith) ∙ k.tables (v / 2 ^ 12) (omega arith) in
    translate_entries mem pd v pde pte (first (v / 2 ^ 22) (omega arith)) second
    ∙ reached_lem pde pte v v 1 1 (omega arith) (omega arith) (omega arith) (omega arith)
        (omega arith)

-- After `init_paging`, whatever memory held, the kernel's directory maps each of the first 16 MB
-- to itself, for writing and for user code too, and any other address to no page.
init_paging_lem :
    (mem : Memory) (v : ℕ)
    → v < 2 ^ 32
    → let out = init_paging mem in
      translate out.1 out.0 v
      ≡ (if ltb v (2 ^ 24) then some (record { address = v; writable = 1; user = 1 }) else none)
unfolding init_paging
init_paging_lem mem v h =
    let k = init_paging-KernelTables mem in
    elim (Bool-cases (ltb v (2 ^ 24))) [
      | inl low ↦ rw low (identity (init_paging mem).1 0x20_0000 v k k.directory (ground arith))
      | inr high ↦ rw high (
          translate_absent (init_paging mem).1 0x20_0000 v
            (read32-init_paging mem (0x20_0000 + 4 * (v / 2 ^ 22)) (omega arith) ∙ ground arith))
    ]

pub entry-init_paging :
    (mem : Memory) (i : ℕ)
    → i < 1024
    → entry (init_paging mem).1 kernel_pd_addr i ≡ (if ltb i 4 then 0x20_1000 + 4096 * i + 7 else 0)
entry-init_paging mem i h =
    ground (arith, read32-init_paging mem (kernel_pd_addr + 4 * i) (omega arith))

-- The bytes below the directory.
pub init_paging-byte : (mem : Memory) (x : ℕ) → x < 0x20_0000 → (init_paging mem).1 x ≡ mem x
unfolding init_paging identity_tables memzero
init_paging-byte mem x h =
    let cleared = memzero kernel_pd_addr 4096 mem in
    fill32_outside 4 0 kernel_pd_addr (λ i. present_write_user (kernel_pt_addr + 4096 * i))
      (identity_tables cleared).0 x (inl (omega (arith, h)))
    ∙ ap (λ (s : Memory × ℕ). s.0 x) (identity_loop 4096 0 cleared (omega arith))
    ∙ fill32_outside 4096 0 kernel_pt_addr (λ k. 4096 * k + 7) cleared x (inl (omega (arith, h)))
    ∙ for_range-update_at 4096 0 kernel_pd_addr (λ _. 0) mem x
    ∙ ground arith
