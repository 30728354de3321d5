-- ===== src/Fs/Elf/Apart.antt =====
-- Memory that changes in free pages only.
use pepin_os.Base.{ℕ, ◌+◌, ◌*◌, ◌/◌, ◌%◌, ◌^◌, ◌<◌, ◌≡◌, ap, ◌∙◌, arith}
use pepin_os.Base.Memory.{Memory, read32, read32_same}
use pepin_os.Mm.Pmm.{Pmm}
use pepin_os.Mm.Pmm.Bitmap.{used}
use pepin_os.Mm.Paging.Translate.{entry, frame_of, translate, translate_same}
use pepin_os.Mm.Vmm.Space.{IsSpace, entries-IsSpace}

-- The bytes of taken pages are as they were.
pub record Keeps (pmm : Pmm) (mem mem' : Memory) : Type 0 where
  pub same : (b : ℕ) → used pmm (b / 4096) ≡ 1 → mem' b ≡ mem b

module _ {pmm : Pmm} {mem mem' : Memory} {pd : ℕ} (s : IsSpace mem pd pmm)
    (kept : Keeps pmm mem mem') where
  read32-Keeps : (b : ℕ) → b % 4 ≡ 0 → used pmm (b / 4096) ≡ 1 → read32 mem' b ≡ read32 mem b
  read32-Keeps b h u =
      read32_same mem mem' b (λ x lo hi. kept.same x (ap (used pmm) (omega arith) ∙ u))

  pub entry-Keeps : (i : ℕ) → i < 1024 → entry mem' pd i ≡ entry mem pd i
  entry-Keeps i h =
      let a = s.aligned in
      read32-Keeps (pd + 4 * i) (omega arith) (ap (used pmm) (omega arith) ∙ s.taken)

  pub IsSpace-Keeps :
      (pmm' : Pmm) → ((i : ℕ) → used pmm i ≡ 1 → used pmm' i ≡ 1) → IsSpace mem' pd pmm'
  IsSpace-Keeps pmm' more = entries-IsSpace s entry-Keeps pmm' more

  pub translate-Keeps : (v : ℕ) → v < 2 ^ 32 → translate mem' pd v ≡ translate mem pd v
  translate-Keeps v h =
      let d = v / 2 ^ 22 in
      translate_same mem mem' pd pd v (entry-Keeps d (omega arith)) (λ p.
        read32-Keeps (frame_of (entry mem pd d) + 4 * (v / 2 ^ 12 % 1024)) (omega arith)
          (ap (used pmm) (omega arith) ∙ s.tables_taken d (omega arith) p))
