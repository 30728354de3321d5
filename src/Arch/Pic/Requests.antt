-- ===== src/Arch/Pic/Requests.antt =====
-- Which interrupt requests reach the processor after `init_idt`, and which handler they reach.
use pepin_os.Base.{
  ℕ, zero, suc, ◌+◌, ◌-◌, ◌*◌, ◌/◌, ◌%◌, ◌^◌, ◌≤◌, ◌<◌, ◌≡◌, refl, ap, ◌∙◌, ◌⊎◌, inl, inr, arith,
  ◌==◌, ltb, Bool, true, false, not, ◌||◌, Option, none, some, if◌then◌else◌, Bool-cases, ltb→lt,
}
use pepin_os.Arch.Idt.{Stubs, IdtDesc}
use pepin_os.Arch.Idt.Gates.{IsGate, handler, init_idt-IsGate}
use pepin_os.Arch.Pic.{
  Chip, Chips, ready, wants_base, wants_cascade, wants_mode, Controllers, write_port, program_pics,
  init_interrupts,
}

abbrev masked : Chip → ℕ → Bool
masked c line = not (c.mask / 2 ^ line % 2 == 0)

-- The vector that a controller gives to one of its lines, in the mode of the 8086.
abbrev vector_of : Chip → ℕ → Option ℕ
vector_of c line = elim c.stage [
  | ready ↦ if masked c line || (c.mode % 2 == 0) then none else some (c.base + line)
  | wants_base ↦ none
  | wants_cascade ↦ none
  | wants_mode ↦ none
]

-- The vector of a request. Those from 8 come through line 2 of the master, to which the slave must be
-- attached with that number.
abbrev pub vector : Chips → ℕ → Option ℕ
vector c request =
    if ltb request 8
    then vector_of c.master request
    else if masked c.master 2 || not (c.master.cascade == 4) || not (c.slave.cascade == 2)
    then none
    else vector_of c.slave (request - 8)

programmed : Chips
programmed = record {
  master = record {
    stage = ready;
    single = false;
    mode_follows = true;
    base = 0x20;
    cascade = 4;
    mode = 1;
    mask = 0xFC;
  };
  slave = record {
    stage = ready;
    single = false;
    mode_follows = true;
    base = 0x28;
    cascade = 2;
    mode = 1;
    mask = 0xFF;
  };
}

then_write :
    (p : Controllers) (port v : ℕ) {s : p.State} {c : Chips}
    → v < 256
    → p.chips s ≡ c
    → p.chips (p.outb port v s) ≡ write_port port v c
then_write p port v {s} h e = p.outb_writes port v s h ∙ ap (write_port port v) e

program_pics_lem : (p : Controllers) (s : p.State) → p.chips (program_pics p s) ≡ programmed
unfolding program_pics programmed
program_pics_lem p s =
    let m1 = p.outb_writes 0x20 0x11 s (omega arith) in
    let m2 = then_write p 0x21 0x20 (omega arith) m1 in
    let m3 = then_write p 0x21 0x04 (omega arith) m2 in
    let m4 = then_write p 0x21 0x01 (omega arith) m3 in
    let s1 = then_write p 0xA0 0x11 (omega arith) m4 in
    let s2 = then_write p 0xA1 0x28 (omega arith) s1 in
    let s3 = then_write p 0xA1 0x02 (omega arith) s2 in
    let s4 = then_write p 0xA1 0x01 (omega arith) s3 in
    then_write p 0xA1 0xFF (omega arith) (then_write p 0x21 0xFC (omega arith) s4)

-- A property of the lines of a controller.
each_line : (P : ℕ → Type 0) → P 0 → P 1 → P 2 → P 3 → P 4 → P 5 → P 6 → P 7 → (n : ℕ) → n < 8 → P n
each_line P p0 p1 p2 p3 p4 p5 p6 p7 zero h = p0
each_line P p0 p1 p2 p3 p4 p5 p6 p7 (suc zero) h = p1
each_line P p0 p1 p2 p3 p4 p5 p6 p7 (suc (suc zero)) h = p2
each_line P p0 p1 p2 p3 p4 p5 p6 p7 (suc (suc (suc zero))) h = p3
each_line P p0 p1 p2 p3 p4 p5 p6 p7 (suc (suc (suc (suc zero)))) h = p4
each_line P p0 p1 p2 p3 p4 p5 p6 p7 (suc (suc (suc (suc (suc zero))))) h = p5
each_line P p0 p1 p2 p3 p4 p5 p6 p7 (suc (suc (suc (suc (suc (suc zero)))))) h = p6
each_line P p0 p1 p2 p3 p4 p5 p6 p7 (suc (suc (suc (suc (suc (suc (suc zero))))))) h = p7
each_line P p0 p1 p2 p3 p4 p5 p6 p7 (suc (suc (suc (suc (suc (suc (suc (suc n)))))))) h =
    absurd (omega (arith, h))

programmed-vector :
    (n : ℕ) → n < 16 → vector programmed n ≡ (if ltb n 2 then some (0x20 + n) else none)
unfolding programmed
programmed-vector n h = elim (Bool-cases (ltb n 8)) [
  | inl low ↦
      each_line (λ (k : ℕ). vector programmed k ≡ (if ltb k 2 then some (0x20 + k) else none)) refl
        refl refl refl refl refl refl refl n (ltb→lt n 8 low)
  | inr high ↦ let late : ltb n 2 ≡ false = ground (arith, high) in rw (high, late) refl
]

-- From any state of the controllers and any memory, after `init_idt` only the requests 0 and 1, those
-- of the timer and the keyboard, reach the processor, each with a vector whose gate leads to its own
-- handler in the kernel's code segment; all other requests are masked.
pub requests_lem :
    (p : Controllers) (stubs : Stubs) (kidt : ℕ → IdtDesc) (mem : ℕ → ℕ) (s : p.State)
    → ((n : ℕ) → n < 2 → stubs.irq n < 2 ^ 32)
    → let (table, s') = init_interrupts p stubs kidt mem s in
      (n : ℕ)
      → n < 16
      → ((n < 2)
          × ((v : ℕ) × (vector (p.chips s') n ≡ some v)
              × IsGate table.2 (0x500 + 8 * v) (stubs.irq n) 0x08 0x8E00))
        ⊎ ((2 ≤ n) × (vector (p.chips s') n ≡ none))
unfolding init_interrupts
requests_lem p stubs kidt mem s small n h =
    let chosen = ap (λ (c : Chips). vector c n) (program_pics_lem p s) ∙ programmed-vector n h in
    elim (Bool-cases (ltb n 2)) [
      | inl timer ↦
          let lt = ltb→lt n 2 timer in
          let own : handler stubs (0x20 + n) ≡ stubs.irq n = ground (arith, lt) in
          let plain : 0x20 + n == 48 ≡ false = ground (arith, lt) in
          let gate =
            init_idt-IsGate stubs kidt mem (0x20 + n) (omega (arith, lt)) (rw own (small n lt)) in
          inl (lt, (0x20 + n, rw timer at chosen, rw (own, plain) at gate))
      | inr other ↦ inr (ground (arith, other), rw other at chosen)
    ]
