-- ===== src/Mm/Vmm/Map.antt =====
-- Mapping a page.
use pepin_os.Base.{
  ℕ, ◌+◌, ◌/◌, ◌%◌, ◌^◌, ◌≤◌, ◌<◌, ◌≡◌, refl, sym, ap, ◌∙◌, ◌≢◌, ◌⊎◌, inl, inr, arith, ◌==◌, min,
  Option, some, if◌then◌else◌, Bool-cases,
}
use pepin_os.Base.Memory.{Memory}
use pepin_os.Mm.Pmm.{Pmm, alloc_page}
use pepin_os.Mm.Pmm.Bitmap.{used}
use pepin_os.Mm.Pmm.Valid.{IsValid}
use pepin_os.Mm.Pmm.Alloc.{Took, alloc_page_lem}
use pepin_os.Mm.Pmm.Keeps.{Took-IsValid}
use pepin_os.Mm.Paging.Translate.{Reached, entry, frame_of, translate, reached_lem}
use pepin_os.Mm.Vmm.{map_page}
use pepin_os.Mm.Vmm.Space.{IsSpace, Entered, other_entry, translate-Entered}
use pepin_os.Mm.Vmm.Words.{
  AddsFlags, IsMapping, present_lem, present_Entered, absent_lem, absent_Entered,
}

pub entry_cases :
    {mem mem' : Memory} {pd virt table pde pte : ℕ}
    → pd % 4096 ≡ 0
    → virt < 2 ^ 32
    → Entered mem mem' pd virt table pde pte
    → (i : ℕ) → i < 1024
    → ((virt / 2 ^ 22 ≡ i) × (entry mem' pd i ≡ pde))
      ⊎ ((virt / 2 ^ 22 ≢ i) × (entry mem' pd i ≡ entry mem pd i))
entry_cases {mem} {mem'} {pd} {virt} aligned hv e i h = elim (Bool-cases (virt / 2 ^ 22 == i)) [
  | inl same ↦
      let d : virt / 2 ^ 22 ≡ i = ground arith in inl (d, ap (entry mem' pd) (sym d) ∙ e.directory)
  | inr ne ↦ inr (ground arith, other_entry aligned hv e i h (ground arith))
]

-- The directory and its tables still are different taken pages.
pub kept_space :
    {mem mem' : Memory} {pd virt table pde pte : ℕ} {pmm pmm' : Pmm}
    → virt < 2 ^ 32
    → IsSpace mem pd pmm
    → Entered mem mem' pd virt table pde pte
    → ((i : ℕ) → used pmm i ≡ 1 → used pmm' i ≡ 1)
    → used pmm' (pde / 4096) ≡ 1
    → IsSpace mem' pd pmm'
kept_space {mem} {mem'} {pd} {virt} {table} {pde} {pte} {pmm} {pmm'} hv s e more now =
    let cases = entry_cases s.aligned hv e in
    record {
      aligned = s.aligned;
      inside = s.inside;
      taken = more (pd / 4096) s.taken;
      tables_taken = λ i h p. elim (cases i h) [
        | inl (d, new) ↦ rw new now
        | inr (ne, old) ↦ rw old (more (entry mem pd i / 4096) (s.tables_taken i h (rw old at p)))
      ];
      tables_apart = λ i h p same. elim (cases i h) [
        | inl (d, new) ↦ e.off_directory (sym e.points.1 ∙ rw new at same)
        | inr (ne, old) ↦ s.tables_apart i h (rw old at p) (rw old at same)
      ];
      once = λ i j hi hj pi pj same. elim (cases i hi) [
        | inl (di, new) ↦ elim (cases j hj) [
          | inl (dj, _) ↦ sym di ∙ dj
          | inr (ne, old) ↦
              absurd
                ((e.elsewhere j hj ne (rw old at pj)).0 (sym (rw (new, old) at same) ∙ e.points.1))
        ]
        | inr (ne, old) ↦ elim (cases j hj) [
          | inl (dj, new) ↦
              absurd ((e.elsewhere i hi ne (rw old at pi)).0 (rw (new, old) at same ∙ e.points.1))
          | inr (_, old') ↦ s.once i j hi hj (rw old at pi) (rw old' at pj) (rw (old, old') at same)
        ]
      ];
    }

-- The page of `virt` is reached at `phys`, with the rights that both its entry and that of its table grant,
-- all other pages are as they were, and directory and allocator are in order.
pub record Mapped (pd virt phys flags rights : ℕ) (mem : Memory) (out : Memory × Pmm) : Type 0 where
  pub space : IsSpace out.0 pd out.1
  pub valid : IsValid out.1
  pub translation :
      (v : ℕ)
      → v < 2 ^ 32
      → translate out.0 pd v ≡ (
          if virt / 2 ^ 12 == v / 2 ^ 12
          then some (record {
            address = phys + v % 4096;
            writable = min (rights / 2 % 2) (flags / 2 % 2);
            user = min (rights / 4 % 2) (flags / 4 % 2);
          })
          else translate mem pd v)

-- The rights of the table's entry: those it has, or the flags of a new one.
abbrev pub rights : Memory → (pd virt f : ℕ) → ℕ
rights mem pd virt f = let e = entry mem pd (virt / 2 ^ 22) in if e % 2 == 0 then f else e

new_translation :
    {mem mem' : Memory} {pd virt phys flags table pde : ℕ} {pmm : Pmm} (f : ℕ)
    → IsSpace mem pd pmm
    → IsMapping virt phys flags
    → Entered mem mem' pd virt table pde (phys + flags)
    → (pde / 2 % 2 ≡ f / 2 % 2) × (pde / 4 % 2 ≡ f / 4 % 2)
    → (v : ℕ) → v < 2 ^ 32
    → translate mem' pd v ≡ (
        if virt / 2 ^ 12 == v / 2 ^ 12
        then some (record {
          address = phys + v % 4096;
          writable = min (f / 2 % 2) (flags / 2 % 2);
          user = min (f / 4 % 2) (flags / 4 % 2);
        })
        else translate mem pd v)
new_translation {mem} {mem'} {pd} {virt} {phys} {flags} {table} {pde} f s m e same v h =
    translate-Entered s.aligned m.virt32 e v h
    ∙ ap (λ (r : Option Reached). if virt / 2 ^ 12 == v / 2 ^ 12 then r else translate mem pd v)
        (let hp = e.points in
          let fr = m.frame in
          let sm = m.small in
          let pr = m.present in
          reached_lem pde (phys + flags) v (phys + v % 4096) (min (f / 2 % 2) (flags / 2 % 2))
            (min (f / 4 % 2) (flags / 4 % 2)) hp.0 (omega arith) (omega arith) (omega (arith, same))
            (omega (arith, same)))

pub new_page :
    {pmm : Pmm} {k addr : ℕ} {q : Pmm}
    → IsValid pmm
    → Took pmm k addr q
    → (addr % 4096 ≡ 0) × (addr + 4096 ≤ 2 ^ 32) × (used pmm (addr / 4096) ≡ 0)
new_page {pmm} {k} {addr} v t =
    let place : addr / 4096 ≡ k = omega (arith, t.at) in
    (omega (arith, t.at), omega (arith, t.at, t.inside, v.small), ap (used pmm) place ∙ t.was_free)

-- Mapping a page in a valid address space with an allocator that is valid does this, unless there is neither
-- a table for the page nor memory for one. It holds for the flags of a new table that
-- `dir_entry` adds.
pub map_page_lem :
    {dir_entry : ℕ → ℕ} {f pd virt phys flags : ℕ} {mem : Memory} {pmm : Pmm}
    → AddsFlags dir_entry f
    → IsMapping virt phys flags
    → IsSpace mem pd pmm
    → IsValid pmm
    → (entry mem pd (virt / 2 ^ 22) % 2 ≡ 1) ⊎ ((alloc_page pmm).0 ≢ 0)
    → Mapped pd virt phys flags
        (rights mem pd virt f)
        mem
        (map_page dir_entry pd virt phys flags mem pmm)
map_page_lem {dir_entry} {f} {pd} {virt} {phys} {flags} {mem} {pmm} adds m s v there =
    let old = entry mem pd (virt / 2 ^ 22) in
    elim (Bool-cases (old % 2 == 0)) [
      | inr present ↦
          let odd : old % 2 ≡ 1 = ground arith in
          let e = present_Entered adds m s (frame_of old) odd refl in
          rw (present_lem adds m s odd, present)
            (record {
              space =
                  kept_space m.virt32 s e (λ i t. t)
                    (s.tables_taken (virt / 2 ^ 22) (omega (arith, m.virt32)) odd);
              valid = v;
              translation = new_translation old s m e (refl, refl);
            })
      | inl absent ↦
          let even : old % 2 ≡ 0 = ground arith in
          elim (alloc_page_lem pmm v) [
            | inl full ↦
                absurd (elim there [ inl odd ↦ omega (arith, odd, even) | inr ne ↦ ne full.null ])
            | inr (k, t, lo) ↦
                let addr = (alloc_page pmm).0 in
                let took = new_page v t in
                let e = absent_Entered adds m s addr took even in
                let place : (addr + f) / 4096 ≡ k = omega (arith, t.at, adds.small) in
                rw (absent_lem adds m s addr took even refl, absent)
                  (record {
                    space =
                        kept_space m.virt32 s e (λ i u. t.now i ∙ ground (arith, u))
                          (ap (used (alloc_page pmm).1) place ∙ t.now k ∙ ground arith);
                    valid = Took-IsValid v t;
                    translation =
                        new_translation f s m e (omega (arith, took), omega (arith, took));
                  })
          ]
    ]
