-- ===== src/Mm/Paging/Translate.antt =====
-- What the processor makes of a linear address with two levels of 4 KB page tables.
use pepin_os.Base.{
  ℕ, ◌+◌, ◌-◌, ◌*◌, ◌/◌, ◌%◌, ◌^◌, ◌≡◌, refl, sym, ap, ◌∙◌, inl, inr, arith, ◌==◌, min, true, false,
  Option, none, some, if◌then◌else◌, Bool-cases,
}
use pepin_os.Base.Memory.{Memory, read32}

-- A page's byte, and the rights that both levels grant.
pub record Reached : Type 0 where
  pub address : ℕ
  pub writable : ℕ
  pub user : ℕ

-- The entries that an address selects.
abbrev pub entry : Memory → ℕ → ℕ → ℕ
entry mem table i = read32 mem (table + 4 * i)

abbrev pub frame_of : ℕ → ℕ
frame_of e = e - e % 4096

abbrev pub reached : (pde pte v : ℕ) → Option Reached
reached pde pte v =
    if pde % 2 == 0
    then none
    else if pte % 2 == 0
    then none
    else some (record {
      address = frame_of pte + v % 4096;
      writable = min (pde / 2 % 2) (pte / 2 % 2);
      user = min (pde / 4 % 2) (pte / 4 % 2);
    })

-- The translation of `v` by the directory `cr3`, `none` for a page fault.
pub translate : Memory → ℕ → ℕ → Option Reached
translate mem cr3 v =
    let pde = entry mem cr3 (v / 2 ^ 22) in
    reached pde (entry mem (frame_of pde) (v / 2 ^ 12 % 1024)) v

pub translate_entries :
    (mem : Memory) (cr3 v pde pte : ℕ)
    → entry mem cr3 (v / 2 ^ 22) ≡ pde
    → entry mem (frame_of pde) (v / 2 ^ 12 % 1024) ≡ pte
    → translate mem cr3 v ≡ reached pde pte v
unfolding translate
translate_entries mem cr3 v pde pte e f = rw (e, f) refl

-- No entry in the directory: a page fault.
pub translate_absent :
    (mem : Memory) (cr3 v : ℕ) → entry mem cr3 (v / 2 ^ 22) ≡ 0 → translate mem cr3 v ≡ none
unfolding translate
translate_absent mem cr3 v e = rw e refl

pub reached_lem :
    (pde pte v a w u : ℕ)
    → pde % 2 ≡ 1
    → pte % 2 ≡ 1
    → frame_of pte + v % 4096 ≡ a
    → min (pde / 2 % 2) (pte / 2 % 2) ≡ w
    → min (pde / 4 % 2) (pte / 4 % 2) ≡ u
    → reached pde pte v ≡ some (record { address = a; writable = w; user = u })
reached_lem pde pte v a w u hd ht ha hw hu =
    let d : pde % 2 == 0 ≡ false = ground (arith, hd) in
    let t : pte % 2 == 0 ≡ false = ground (arith, ht) in rw (d, t, ha, hw, hu) refl

pub reached_absent : (pde v pte : ℕ) → pde % 2 ≡ 0 → reached pde pte v ≡ none
reached_absent pde v pte h = let t : pde % 2 == 0 ≡ true = ground arith in rw t refl

pub reached_no_page : (pde v : ℕ) → reached pde 0 v ≡ none
reached_no_page pde v = elim (Bool-cases (pde % 2 == 0)) [
  | inl absent ↦ rw absent refl
  | inr present ↦ rw present refl
]

-- A page that faults does so at each of its addresses.
pub same_page :
    (mem : Memory) (pd v w : ℕ)
    → v / 2 ^ 12 ≡ w / 2 ^ 12
    → translate mem pd v ≡ none
    → translate mem pd w ≡ none
unfolding translate
same_page mem pd v w same fault =
    let d : v / 2 ^ 22 ≡ w / 2 ^ 22 = omega (arith, same) in
    let here = rw (d, same) at fault in ground (arith, here)

-- Equal entries on the way give equal translations.
pub translate_same :
    (mem mem' : Memory) (pd pd' v : ℕ)
    → entry mem' pd' (v / 2 ^ 22) ≡ entry mem pd (v / 2 ^ 22)
    → (let pde = entry mem pd (v / 2 ^ 22) in
        let j = v / 2 ^ 12 % 1024 in
        pde % 2 ≡ 1 → entry mem' (frame_of pde) j ≡ entry mem (frame_of pde) j)
    → translate mem' pd' v ≡ translate mem pd v
translate_same mem mem' pd pd' v same below =
    let pde = entry mem pd (v / 2 ^ 22) in
    let j = v / 2 ^ 12 % 1024 in
    let old = entry mem (frame_of pde) j in
    let new = entry mem' (frame_of pde) j in
    translate_entries mem' pd' v pde new same refl
    ∙ (elim (Bool-cases (pde % 2 == 0)) [
      | inl absent ↦
          reached_absent pde v new (ground arith) ∙ sym (reached_absent pde v old (ground arith))
      | inr present ↦ ap (λ (w : ℕ). reached pde w v) (below (ground arith))
    ])
    ∙ sym (translate_entries mem pd v pde old refl refl)
