-- ===== src/Arch/Idt/Gates.antt =====
-- What `init_idt` of arch/idt.c leaves in memory: the gate of each vector.
use pepin_os.Base.{
  ℕ, ◌+◌, ◌-◌, ◌*◌, ◌/◌, ◌%◌, ◌^◌, ◌≤◌, ◌<◌, ◌≡◌, refl, ap, ◌∙◌, inl, inr, arith, ◌==◌, ltb, leb,
  bit_and, Bool, true, false, ◌&&◌, ◌||◌, List, [], ◌∷◌, if◌then◌else◌, for_range, for_range-update,
  Bool-cases,
}
use pepin_os.Base.{for_range-update_at}
use pepin_os.Base.Bits.Masks.{bit_and_low, bit_and_shifted}
use pepin_os.Arch.Idt.{
  IdtDesc, init_idt_desc, Stubs, idt_size, gate, isr_gates, fill_idt, gate_byte, init_idt,
}

-- What the processor reads of the gate of a vector: the handler's address, its segment, and the type
-- with the privilege.
abbrev pub IsGate : (ℕ → ℕ) → (a offset select type : ℕ) → Type 0
IsGate mem a offset select type =
    (mem (a + 0) + 2 ^ 8 * mem (a + 1) + 2 ^ 16 * mem (a + 6) + 2 ^ 24 * mem (a + 7) ≡ offset)
    × (mem (a + 2) + 2 ^ 8 * mem (a + 3) ≡ select)
    × (mem (a + 4) + 2 ^ 8 * mem (a + 5) ≡ type)

-- The handler that a vector is meant for.
abbrev pub handler : Stubs → ℕ → ℕ
handler s v =
    if v == 0
    then s.div0
    else if v == 13
    then s.gpf
    else if v == 14
    then s.pagefault
    else if ltb v 13 || (v == 15) || (v == 16) || (v == 17) || (v == 19) || (v == 20)
    then s.isr v
    else if leb 32 v && ltb v 40
    then s.irq (v - 32)
    else if v == 48
    then s.syscall
    else s.default

among : ℕ → List ℕ → Bool
among v [] = false
among v (i ∷ is) = (v == i) || among v is

isr_gates_lem :
    (is : List ℕ) (isr : ℕ → ℕ) (idt : ℕ → IdtDesc) (v : ℕ)
    → isr_gates is isr idt v ≡ (if among v is then init_idt_desc 0x08 (isr v) 0x8E00 else idt v)
unfolding isr_gates among
isr_gates_lem [] isr idt v = refl
isr_gates_lem (i ∷ is) isr idt v =
    isr_gates_lem is isr (gate i (isr i) idt) v ∙ (elim (Bool-cases (v == i)) [
      | inl same ↦ let e : v ≡ i = ground arith in rw e (ground arith)
      | inr other ↦ ground arith
    ])

all_gates :
    (s : Stubs) (old : ℕ → IdtDesc) (v : ℕ)
    → v < 256
    → for_range idt_size 0 (λ i t. gate i s.default t) old v ≡ init_idt_desc 0x08 s.default 0x8E00
all_gates s old v h =
    for_range-update 256 0 (λ _. init_idt_desc 0x08 s.default 0x8E00) old v
    ∙ (let inside : leb 0 v && ltb v (0 + 256) ≡ true = ground arith in rw inside refl)

fill_idt_lem :
    (s : Stubs) (old : ℕ → IdtDesc) (v : ℕ)
    → v < 256
    → fill_idt s old v ≡ init_idt_desc 0x08 (handler s v) (if v == 48 then 0xEF00 else 0x8E00)
unfolding fill_idt among
fill_idt_lem s old v h =
    let all = for_range idt_size 0 (λ i t. gate i s.default t) old in
    let plain =
      isr_gates (1 ∷ 2 ∷ 3 ∷ 4 ∷ 5 ∷ 6 ∷ 7 ∷ 9 ∷ 15 ∷ 16 ∷ 19 ∷ 20 ∷ []) s.isr
        (gate 0 s.div0 all) in
    let coded = isr_gates (8 ∷ 10 ∷ 11 ∷ 12 ∷ []) s.isr plain in
    let faults = isr_gates (17 ∷ []) s.isr (gate 14 s.pagefault (gate 13 s.gpf coded)) in
    let irqs = for_range-update_at 8 0 32 (λ i. init_idt_desc 0x08 (s.irq i) 0x8E00) faults v in
    ground (
      arith,
      irqs,
      all_gates s old v h,
      isr_gates_lem (1 ∷ 2 ∷ 3 ∷ 4 ∷ 5 ∷ 6 ∷ 7 ∷ 9 ∷ 15 ∷ 16 ∷ 19 ∷ 20 ∷ []) s.isr
          (gate 0 s.div0 all) v,
      isr_gates_lem (8 ∷ 10 ∷ 11 ∷ 12 ∷ []) s.isr plain v,
      isr_gates_lem (17 ∷ []) s.isr (gate 14 s.pagefault (gate 13 s.gpf coded)) v,
    )

gate_lem :
    (select offset type : ℕ) (mem : ℕ → ℕ) (a : ℕ)
    → offset < 2 ^ 32
    → select < 2 ^ 16
    → type < 2 ^ 16
    → ((j : ℕ) → j < 8 → mem (a + j) ≡ gate_byte (init_idt_desc select offset type) j)
    → IsGate mem a offset select type
unfolding init_idt_desc
gate_lem select offset type mem a ho hs ht hm =
    let lo : bit_and offset 0xFFFF ≡ offset % 65536 = bit_and_low 16 offset in
    let hi : bit_and offset 0xFFFF0000 ≡ bit_and (offset / 65536) 65535 * 65536 =
      bit_and_shifted 16 offset 65535 in
    let hi' = bit_and_low 16 (offset / 65536) in
    (
      omega (
        arith,
        lo,
        hi,
        hi',
        hm 0 (omega arith),
        hm 1 (omega arith),
        hm 6 (omega arith),
        hm 7 (omega arith),
      ),
      omega (arith, hm 2 (omega arith), hm 3 (omega arith)),
      omega (arith, hm 4 (omega arith), hm 5 (omega arith)),
    )

-- Whatever memory and `kidt` hold, after `init_idt` the register covers 256 gates at 0x500, and the gate of
-- each vector leads to its handler in the kernel's code segment: division by zero, the exceptions with
-- a stub, the general protection and page faults, the interrupts 32 to 39, the system call at 48, which is
-- a trap gate that user code may call, and the default handler at the others.
pub init_idt_lem :
    (s : Stubs) (old : ℕ → IdtDesc) (mem : ℕ → ℕ) (v : ℕ)
    → v < 256
    → handler s v < 2 ^ 32
    → let (idtr, kidt, m) = init_idt s old mem in
      (idtr.limite ≡ 2048)
      × IsGate m (idtr.base + 8 * v) (handler s v) 0x08 (if v == 48 then 0xEF00 else 0x8E00)
unfolding init_idt
init_idt_lem s old mem v hv hh =
    let m = (init_idt s old mem).2 in
    (
      refl,
      gate_lem 0x08 (handler s v) (if v == 48 then 0xEF00 else 0x8E00) m (0x500 + 8 * v) hh
          (omega arith) (ground arith)
          (λ j hj.
            let q : (0x500 + 8 * v + j - 0x500) / 8 ≡ v = omega arith in
            let r : (0x500 + 8 * v + j - 0x500) % 8 ≡ j = omega arith in
            let inside : leb (0x500 + 0) (0x500 + 8 * v + j)
                  && ltb (0x500 + 8 * v + j) (0x500 + 0 + 2048)
                ≡ true =
              ground arith in
            for_range-update_at 2048 0 0x500 (λ k. gate_byte (fill_idt s old (k / 8)) (k % 8)) mem
              (0x500 + 8 * v + j)
            ∙ rw (inside, q, r) (ap (λ (d : IdtDesc). gate_byte d j) (fill_idt_lem s old v hv))),
    )

-- The same bytes make the same gate.
pub IsGate-same :
    (m m' : ℕ → ℕ) (a : ℕ) {offset select type : ℕ}
    → ((j : ℕ) → j < 8 → m' (a + j) ≡ m (a + j))
    → IsGate m a offset select type
    → IsGate m' a offset select type
IsGate-same m m' a e g =
    rw
      (
        e 0 (omega arith),
        e 1 (omega arith),
        e 2 (omega arith),
        e 3 (omega arith),
        e 4 (omega arith),
        e 5 (omega arith),
        e 6 (omega arith),
        e 7 (omega arith),
      )
      g

pub init_idt-IsGate :
    (s : Stubs) (old : ℕ → IdtDesc) (mem : ℕ → ℕ) (v : ℕ)
    → v < 256
    → handler s v < 2 ^ 32
    → IsGate
        (init_idt s old mem).2
        (0x500 + 8 * v)
        (handler s v)
        0x08
        (if v == 48 then 0xEF00 else 0x8E00)
unfolding init_idt
init_idt-IsGate s old mem v hv hh = (init_idt_lem s old mem v hv hh).1

-- Only the bytes from 0x500 to 0xD00 are written.
pub init_idt-outside :
    (s : Stubs) (old : ℕ → IdtDesc) (mem : ℕ → ℕ) (a : ℕ)
    → 0xD00 ≤ a
    → (init_idt s old mem).2 a ≡ mem a
unfolding init_idt
init_idt-outside s old mem a h =
    let outside : leb (0x500 + 0) a && ltb a (0x500 + 0 + 2048) ≡ false = ground arith in
    for_range-update_at 2048 0 0x500 (λ k. gate_byte (fill_idt s old (k / 8)) (k % 8)) mem a
    ∙ rw outside refl

pub init_idt-register :
    (s : Stubs) (old : ℕ → IdtDesc) (mem : ℕ → ℕ)
    → let idtr = (init_idt s old mem).0 in (idtr.limite ≡ 2048) × (idtr.base ≡ 0x500)
unfolding init_idt
init_idt-register s old mem = (refl, refl)
