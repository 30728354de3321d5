-- ===== src/Fs/Elf/Kept.antt =====
-- What loading leaves alone: pages that belong to others, and translations of other addresses.
use pepin_os.Base.{
  ℕ, ◌+◌, ◌/◌, ◌%◌, ◌^◌, ◌<◌, ◌≡◌, refl, sym, ap, ◌∙◌, ◌≢◌, inl, inr, arith, ◌==◌, ltb, true, false,
  Option, none, some, if◌then◌else◌, add32,
}
use mathlib.Core.Path.{subst}
use pepin_os.Base.Memory.{Memory}
use pepin_os.Mm.Pmm.{Pmm, alloc_page}
use pepin_os.Mm.Pmm.Bitmap.{used}
use pepin_os.Mm.Paging.Translate.{Reached, entry, translate}
use pepin_os.Mm.Vmm.Space.{IsSpace}
use pepin_os.Fs.Elf.{Phdr, file_part}
use pepin_os.Fs.Elf.Page.{LoadedPage}

-- A taken page that is neither the directory nor one of its tables.
pub record Owned (pd frame : ℕ) (s : Memory × Pmm) : Type 0 where
  pub taken : used s.1 (frame / 4096) ≡ 1
  pub off_directory : frame / 4096 ≢ pd / 4096
  pub off_tables :
      (i : ℕ) → i < 1024 → entry s.0 pd i % 2 ≡ 1 → entry s.0 pd i / 4096 ≢ frame / 4096

-- Such a page stays one and keeps its bytes, no page is given back, and the addresses in the pages of `P` keep their
-- translations.
pub record Kept (pd : ℕ) (P : ℕ → Type 0) (s0 s : Memory × Pmm) : Type 0 where
  pub owned : (frame : ℕ) → frame % 4096 ≡ 0 → Owned pd frame s0 → Owned pd frame s
  pub bytes :
      (frame o : ℕ)
      → frame % 4096 ≡ 0
      → o < 4096
      → Owned pd frame s0
      → s.0 (frame + o) ≡ s0.0 (frame + o)
  pub still : (i : ℕ) → used s0.1 i ≡ 1 → used s.1 i ≡ 1
  pub translation : (v : ℕ) → v < 2 ^ 32 → P (v / 4096) → translate s.0 pd v ≡ translate s0.0 pd v

pub same_Kept : (pd : ℕ) (P : ℕ → Type 0) (s : Memory × Pmm) → Kept pd P s s
same_Kept pd P s = record {
  owned = λ frame a o. o;
  bytes = λ frame o a h w. refl;
  still = λ i h. h;
  translation = λ v h p. refl;
}

pub then_Kept :
    {pd : ℕ} {P Q : ℕ → Type 0} {a b c : Memory × Pmm} (R : ℕ → Type 0)
    → Kept pd P a b
    → Kept pd Q b c
    → ((n : ℕ) → R n → P n × Q n)
    → Kept pd R a c
then_Kept R first second both = record {
  owned = λ frame h o. second.owned frame h (first.owned frame h o);
  bytes = λ frame o h lt w.
      second.bytes frame o h lt (first.owned frame h w) ∙ first.bytes frame o h lt w;
  still = λ i h. second.still i (first.still i h);
  translation = λ v h r.
      second.translation v h (both (v / 4096) r).1 ∙ first.translation v h (both (v / 4096) r).0;
}

-- The address that a translation gives.
abbrev pub place_of : Option Reached → Option ℕ
place_of none = none
place_of (some r) = some r.address

-- The page of `vaddr` is at the page `frame`, which holds the bytes of `c`.
pub record Holds (c : ℕ → ℕ) (pd vaddr frame : ℕ) (s : Memory × Pmm) : Type 0 where
  pub at : (o : ℕ) → o < 4096 → place_of (translate s.0 pd (vaddr + o)) ≡ some (frame + o)
  pub bytes : (o : ℕ) → o < 4096 → s.0 (frame + o) ≡ c o
  pub aligned : frame % 4096 ≡ 0
  pub owned : Owned pd frame s

pub kept_Holds :
    {c : ℕ → ℕ} {pd : ℕ} {P : ℕ → Type 0} {s0 s : Memory × Pmm} (vaddr frame : ℕ)
    → Kept pd P s0 s
    → vaddr % 4096 ≡ 0
    → vaddr < 2 ^ 32
    → P (vaddr / 4096)
    → Holds c pd vaddr frame s0
    → Holds c pd vaddr frame s
kept_Holds {P = P} vaddr frame k ha h32 p old = record {
  at = λ o h.
      let page : vaddr / 4096 ≡ (vaddr + o) / 4096 = omega (arith, ha) in
      ap place_of (k.translation (vaddr + o) (omega (arith, ha, h32)) (subst P page p))
      ∙ old.at o h;
  bytes = λ o h. k.bytes frame o old.aligned h old.owned ∙ old.bytes o h;
  aligned = old.aligned;
  owned = k.owned frame old.aligned old.owned;
}

-- The byte that the program finds at an offset in a page of the segment: one of the file, or 0.
unfoldable pub segment_byte : (ℕ → ℕ) → Phdr → (vaddr o : ℕ) → ℕ
segment_byte buf ph vaddr o =
    if ltb o (file_part ph vaddr).0 then buf (add32 (file_part ph vaddr).1 o) else 0

module _ {buf : ℕ → ℕ} {ph : Phdr} {pd vaddr : ℕ} {mem : Memory} {pmm : Pmm} {out : Memory × Pmm}
    (aligned : vaddr % 4096 ≡ 0) (virt32 : vaddr < 2 ^ 32) (s : IsSpace mem pd pmm)
    (l : LoadedPage buf ph pd vaddr mem pmm out) where
  -- The page that is loaded now.
  pub loaded_Holds : Holds (segment_byte buf ph vaddr) pd vaddr (alloc_page pmm).0 out
  unfolding segment_byte
  loaded_Holds = record {
    at = λ o h.
        let same : vaddr / 2 ^ 12 == (vaddr + o) / 2 ^ 12 ≡ true = ground (arith, aligned) in
        let offset : (vaddr + o) % 4096 ≡ o = omega (arith, aligned) in
        ap place_of (l.mapped.translation (vaddr + o) (omega (arith, aligned, virt32)))
        ∙ rw (same, offset) refl;
    bytes = l.bytes;
    aligned = l.aligned;
    owned = record {
      taken = l.now_taken;
      off_directory = λ e. omega (arith, l.was_free, s.taken, ap (used pmm) e);
      off_tables = λ i h p e. elim (l.entries i h) [
        | inl same ↦
            omega
              (arith, l.was_free, s.tables_taken i h (rw same at p), ap (used pmm) (rw same at e))
        | inr (free, ne) ↦ ne e
      ];
    };
  }

  -- The other pages.
  pub page_Kept : Kept pd (λ n. n ≢ vaddr / 4096) (mem, pmm) out
  page_Kept = record {
    owned = λ frame ha old. record {
      taken = l.still (frame / 4096) old.taken;
      off_directory = old.off_directory;
      off_tables = λ i h p e. elim (l.entries i h) [
        | inl same ↦ old.off_tables i h (rw same at p) (rw same at e)
        | inr (free, off) ↦ omega (arith, old.taken, free, ap (used pmm) e)
      ];
    };
    bytes = λ frame o ha h old.
        let page : (frame + o) / 4096 ≡ frame / 4096 = omega (arith, ha) in
        l.others (frame + o) (ap (used pmm) page ∙ old.taken)
          (λ e. old.off_directory (sym page ∙ e))
          (λ p e. old.off_tables (vaddr / 2 ^ 22) (omega (arith, virt32)) p (sym e ∙ page));
    still = l.still;
    translation = λ v h ne.
        let apart : vaddr / 2 ^ 12 == v / 2 ^ 12 ≡ false = ground (arith, ne) in
        l.mapped.translation v h ∙ rw apart refl;
  }
