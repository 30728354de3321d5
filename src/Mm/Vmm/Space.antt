-- ===== src/Mm/Vmm/Space.antt =====
-- An address space in memory, and what writing one entry does to its translations.
use pepin_os.Base.{
  ℕ, ◌+◌, ◌*◌, ◌/◌, ◌%◌, ◌^◌, ◌≤◌, ◌<◌, ◌≡◌, refl, sym, ap, ◌∙◌, ◌≢◌, ◌⊎◌, inl, inr, arith, ◌==◌,
  if◌then◌else◌, Bool-cases,
}
use pepin_os.Base.Memory.{Memory, read32}
use pepin_os.Mm.Pmm.{Pmm}
use pepin_os.Mm.Pmm.Bitmap.{used}
use pepin_os.Mm.Paging.Translate.{
  entry, frame_of, reached, translate, translate_entries, reached_absent, reached_no_page,
}

-- The directory and its tables are different taken pages, and no table has two places in it.
pub record IsSpace (mem : Memory) (pd : ℕ) (pmm : Pmm) : Type 0 where
  pub aligned : pd % 4096 ≡ 0
  pub inside : pd + 4096 ≤ 2 ^ 32
  pub taken : used pmm (pd / 4096) ≡ 1
  pub tables_taken :
      (i : ℕ) → i < 1024 → entry mem pd i % 2 ≡ 1 → used pmm (entry mem pd i / 4096) ≡ 1
  pub tables_apart : (i : ℕ) → i < 1024 → entry mem pd i % 2 ≡ 1 → frame_of (entry mem pd i) ≢ pd
  pub once :
      (i j : ℕ)
      → i < 1024
      → j < 1024
      → entry mem pd i % 2 ≡ 1
      → entry mem pd j % 2 ≡ 1
      → frame_of (entry mem pd i) ≡ frame_of (entry mem pd j)
      → i ≡ j

-- Only the entries of the directory matter.
pub entries-IsSpace :
    {mem mem' : Memory} {pd : ℕ} {pmm : Pmm}
    → IsSpace mem pd pmm
    → ((i : ℕ) → i < 1024 → entry mem' pd i ≡ entry mem pd i)
    → (pmm' : Pmm) → ((i : ℕ) → used pmm i ≡ 1 → used pmm' i ≡ 1)
    → IsSpace mem' pd pmm'
entries-IsSpace {mem' = mem'} {pd = pd} s e pmm' more = record {
  aligned = s.aligned;
  inside = s.inside;
  taken = more (pd / 4096) s.taken;
  tables_taken =
      λ i h p. more (entry mem' pd i / 4096) (rw (e i h) (s.tables_taken i h (rw (e i h) at p)));
  tables_apart = λ i h p same. s.tables_apart i h (rw (e i h) at p) (rw (e i h) at same);
  once = λ i j hi hj pi pj same.
      s.once i j hi hj (rw (e i hi) at pi) (rw (e j hj) at pj) (rw (e i hi, e j hj) at same);
}

-- Memory has changed in one entry of the table `table`, which the directory has at the place of
-- `virt`, and in that place if there was no table.
pub record Entered (mem mem' : Memory) (pd virt table pde pte : ℕ) : Type 0 where
  pub page : table % 4096 ≡ 0
  pub off_directory : table ≢ pd
  pub elsewhere :
      (i : ℕ)
      → i < 1024
      → virt / 2 ^ 22 ≢ i
      → entry mem pd i % 2 ≡ 1
      → (frame_of (entry mem pd i) ≢ table) × (frame_of (entry mem pd i) ≢ pd)
  pub directory : entry mem' pd (virt / 2 ^ 22) ≡ pde
  pub points : (pde % 2 ≡ 1) × (frame_of pde ≡ table)
  pub written : entry mem' table (virt / 2 ^ 12 % 1024) ≡ pte
  pub siblings :
      (j : ℕ)
      → j < 1024
      → virt / 2 ^ 12 % 1024 ≢ j
      → ((entry mem pd (virt / 2 ^ 22) ≡ pde) × (entry mem' table j ≡ entry mem table j))
        ⊎ ((entry mem pd (virt / 2 ^ 22) % 2 ≡ 0) × (entry mem' table j ≡ 0))
  pub rest :
      (b : ℕ)
      → b % 4 ≡ 0
      → pd + 4 * (virt / 2 ^ 22) ≢ b
      → ¬ ((table ≤ b) × (b < table + 4096))
      → read32 mem' b ≡ read32 mem b

module _ {mem mem' : Memory} {pd virt table pde pte : ℕ} (aligned : pd % 4096 ≡ 0)
    (virt32 : virt < 2 ^ 32) (e : Entered mem mem' pd virt table pde pte) where
  pub other_entry : (i : ℕ) → i < 1024 → virt / 2 ^ 22 ≢ i → entry mem' pd i ≡ entry mem pd i
  other_entry i h ne =
      e.rest (pd + 4 * i) (omega arith) (λ s. ne (omega (arith, s)))
        (λ r. e.off_directory (omega (arith, r, e.page)))

  other_table :
      (i j : ℕ)
      → i < 1024
      → j < 1024
      → virt / 2 ^ 22 ≢ i
      → entry mem pd i % 2 ≡ 1
      → entry mem' (frame_of (entry mem pd i)) j ≡ entry mem (frame_of (entry mem pd i)) j
  other_table i j hi hj ne here =
      let apart = e.elsewhere i hi ne here in
      e.rest (frame_of (entry mem pd i) + 4 * j) (omega arith) (λ s. apart.1 (omega (arith, s)))
        (λ r. apart.0 (omega (arith, r, e.page)))

  same_directory :
      (v : ℕ)
      → v / 2 ^ 22 ≡ virt / 2 ^ 22
      → translate mem' pd v ≡ reached pde (entry mem' table (v / 2 ^ 12 % 1024)) v
  same_directory v h =
      translate_entries mem' pd v pde (entry mem' table (v / 2 ^ 12 % 1024))
        (ap (entry mem' pd) h ∙ e.directory)
        (ap (λ (a : ℕ). entry mem' a (v / 2 ^ 12 % 1024)) e.points.1)

  sibling_page :
      (v : ℕ)
      → v / 2 ^ 22 ≡ virt / 2 ^ 22
      → virt / 2 ^ 12 % 1024 ≢ v / 2 ^ 12 % 1024
      → translate mem' pd v ≡ translate mem pd v
  sibling_page v h ne =
      let old_entry = entry mem pd (virt / 2 ^ 22) in
      same_directory v h ∙ elim (e.siblings (v / 2 ^ 12 % 1024) (omega arith) ne) [
        | inl (old, same) ↦
            ap (λ (w : ℕ). reached pde w v) same
            ∙ sym (
                translate_entries mem pd v pde (entry mem table (v / 2 ^ 12 % 1024))
                  (ap (entry mem pd) h ∙ old)
                  (ap (λ (a : ℕ). entry mem a (v / 2 ^ 12 % 1024)) e.points.1))
        | inr (absent, zeroed) ↦
            ap (λ (w : ℕ). reached pde w v) zeroed
            ∙ reached_no_page pde v
            ∙ sym (
                translate_entries mem pd v old_entry
                  (entry mem (frame_of old_entry) (v / 2 ^ 12 % 1024)) (ap (entry mem pd) h) refl
                ∙ reached_absent old_entry v (entry mem (frame_of old_entry) (v / 2 ^ 12 % 1024))
                    absent)
      ]

  other_directory :
      (v : ℕ) → v < 2 ^ 32 → virt / 2 ^ 22 ≢ v / 2 ^ 22 → translate mem' pd v ≡ translate mem pd v
  other_directory v h ne =
      let w = entry mem pd (v / 2 ^ 22) in
      let same = other_entry (v / 2 ^ 22) (omega arith) ne in
      let j = v / 2 ^ 12 % 1024 in
      translate_entries mem' pd v w (entry mem' (frame_of w) j) same refl
      ∙ elim (Bool-cases (w % 2 == 0)) [
        | inl absent ↦
            reached_absent w v (entry mem' (frame_of w) j) (ground arith)
            ∙ sym (reached_absent w v (entry mem (frame_of w) j) (ground arith))
        | inr present ↦
            ap (λ (x : ℕ). reached w x v)
              (other_table (v / 2 ^ 22) j (omega arith) (omega arith) ne (ground arith))
      ]
      ∙ sym (translate_entries mem pd v w (entry mem (frame_of w) j) refl refl)

  -- The page of `virt` is translated by the new entry, all others as before.
  pub translate-Entered :
      (v : ℕ)
      → v < 2 ^ 32
      → translate mem' pd v
        ≡ (if virt / 2 ^ 12 == v / 2 ^ 12 then reached pde pte v else translate mem pd v)
  translate-Entered v h = elim (Bool-cases (virt / 2 ^ 12 == v / 2 ^ 12)) [
    | inl same ↦
        let d : v / 2 ^ 22 ≡ virt / 2 ^ 22 = ground arith in
        let j : v / 2 ^ 12 % 1024 ≡ virt / 2 ^ 12 % 1024 = ground arith in
        rw same (
          same_directory v d
          ∙ ap (λ (x : ℕ). reached pde (entry mem' table x) v) j
          ∙ ap (λ (x : ℕ). reached pde x v) e.written)
    | inr other ↦ rw other (elim (Bool-cases (virt / 2 ^ 22 == v / 2 ^ 22)) [
      | inl d ↦ sibling_page v (ground arith) (ground arith)
      | inr d ↦ other_directory v h (ground arith)
    ])
  ]
