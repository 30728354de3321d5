-- ===== src/Fs/Elf/Fill.antt =====
-- Filling a page with its part of the file.
use pepin_os.Base.{ℕ, ◌+◌, ◌-◌, ◌≤◌, ◌≡◌, ◌∙◌, arith, ltb, leb, ◌&&◌, if◌then◌else◌, add32}
use pepin_os.Base.{for_range-update_at}
use pepin_os.Base.Memory.{Memory}
use pepin_os.Fs.Elf.{Phdr, file_part, zero_page, copy_bytes}

pub file_part-le : (ph : Phdr) (vaddr : ℕ) → (file_part ph vaddr).0 ≤ 4096
unfolding file_part
file_part-le ph vaddr = ground arith

zero_page-byte :
    (at : ℕ) (mem : Memory) (x : ℕ)
    → zero_page at mem x ≡ (if leb at x && ltb x (at + 4096) then 0 else mem x)
unfolding zero_page
zero_page-byte at mem x = for_range-update_at 4096 0 at (λ _. 0) mem x ∙ ground arith

copy_bytes-byte :
    (at n off : ℕ) (buf : ℕ → ℕ) (mem : Memory) (x : ℕ)
    → copy_bytes at n off buf mem x
      ≡ (if leb at x && ltb x (at + n) then buf (add32 off (x - at)) else mem x)
unfolding copy_bytes
copy_bytes-byte at n off buf mem x =
    for_range-update_at n 0 at (λ j. buf (add32 off j)) mem x ∙ ground arith

-- The bytes after the page is filled.
pub filled_byte :
    (at n off : ℕ) (buf : ℕ → ℕ) (mem : Memory) (x : ℕ)
    → n ≤ 4096
    → copy_bytes at n off buf (zero_page at mem) x ≡ (
        if leb at x && ltb x (at + 4096)
        then (if ltb (x - at) n then buf (add32 off (x - at)) else 0)
        else mem x)
filled_byte at n off buf mem x h =
    copy_bytes-byte at n off buf (zero_page at mem) x ∙ ground (arith, zero_page-byte at mem x)
