-- ===== src/Process/Syscall/Table.antt =====
-- The open files of all tasks, as a table, and the nodes that they hold.
use pepin_os.Base.{
  ℕ, ◌≤◌, ◌<◌, ◌≡◌, sym, ap, ◌∙◌, ◌≢◌, ◌⊎◌, inl, inr, arith, ◌==◌, true, false, ◌&&◌, some,
  if◌then◌else◌, Bool-cases,
}
use mathlib.Core.Path.{subst}
use pepin_os.Process.Task.{Fd}

-- The table has an open file at the number `fd` of the task `i`, and it holds the node `n`.
abbrev pub Holds : (ℕ → ℕ → Fd) → (i fd n : ℕ) → Type 0
Holds slot i fd n = (3 ≤ fd) × (fd < 8) × ((slot i fd).used ≢ 0) × ((slot i fd).node ≡ some n)

-- Each open file holds a node that is in use, and no two of them the same.
pub record IsValid (slot : ℕ → ℕ → Fd) (used : ℕ → ℕ) : Type 0 where
  pub node :
      (i fd : ℕ)
      → 3 ≤ fd
      → fd < 8
      → (slot i fd).used ≢ 0
      → (n : ℕ) × ((slot i fd).node ≡ some n) × (used n ≢ 0)
  pub apart : (i fd j gd n : ℕ) → Holds slot i fd n → Holds slot j gd n → (i ≡ j) × (fd ≡ gd)

-- The table with the file `f` at the number `gd` of the task `c`.
abbrev pub written : ℕ → ℕ → Fd → (ℕ → ℕ → Fd) → ℕ → ℕ → Fd
written c gd f slot i fd = if (c == i) && (gd == fd) then f else slot i fd

here_or_there :
    (c gd i fd : ℕ)
    → ((c ≡ i) × (gd ≡ fd) × ((c == i) && (gd == fd) ≡ true)) ⊎ ((c == i) && (gd == fd) ≡ false)
here_or_there c gd i fd = elim (Bool-cases ((c == i) && (gd == fd))) [
  | inl yes_here ↦ inl (ground arith, ground arith, yes_here)
  | inr no_there ↦ inr no_there
]

Holds-written :
    (slot : ℕ → ℕ → Fd) (c gd : ℕ) (f : Fd) (i fd n : ℕ)
    → Holds (written c gd f slot) i fd n
    → ((c ≡ i) × (gd ≡ fd) × (f.used ≢ 0) × (f.node ≡ some n))
      ⊎ (((c == i) && (gd == fd) ≡ false) × Holds slot i fd n)
Holds-written slot c gd f i fd n h = elim (here_or_there c gd i fd) [
  | inl (p, q, t) ↦ let h' = rw t at h in inl (p, q, h'.2, h'.3)
  | inr t ↦ let h' = rw t at h in inr (t, h')
]

pub close-IsValid :
    (slot : ℕ → ℕ → Fd) (used used' : ℕ → ℕ) (c gd n : ℕ) (f : Fd)
    → IsValid slot used
    → Holds slot c gd n
    → f.used ≡ 0
    → ((m : ℕ) → n ≢ m → used' m ≡ used m)
    → IsValid (written c gd f slot) used'
close-IsValid slot used used' c gd n f v h e hu = record {
  node = λ i fd a b u. elim (here_or_there c gd i fd) [
    | inl (p, q, t) ↦ absurd ((rw t at u) e)
    | inr t ↦
        let u' = rw t at u in
        let (m, held, busy) = v.node i fd a b u' in
        rw t (
          m,
          held,
          λ z. elim (Bool-cases (n == m)) [
            | inl same ↦
                let en : n ≡ m = ground arith in
                let both = v.apart c gd i fd n h (a, b, u', held ∙ ap some (sym en)) in
                absurd (ground (arith, both, t))
            | inr other ↦ busy (sym (hu m (ground arith)) ∙ z)
          ],
        )
  ];
  apart = λ i fd j ge m hi hj. elim (Holds-written slot c gd f i fd m hi) [
    | inl (p, q, u, x) ↦ absurd (u e)
    | inr (t, hi') ↦ elim (Holds-written slot c gd f j ge m hj) [
      | inl (p, q, u, x) ↦ absurd (u e)
      | inr (t', hj') ↦ v.apart i fd j ge m hi' hj'
    ]
  ];
}

pub open-IsValid :
    (slot : ℕ → ℕ → Fd) (used used' : ℕ → ℕ) (c gd n : ℕ) (f : Fd)
    → IsValid slot used
    → f.node ≡ some n
    → used n ≡ 0
    → used' n ≢ 0
    → ((m : ℕ) → n ≢ m → used' m ≡ used m)
    → IsValid (written c gd f slot) used'
open-IsValid slot used used' c gd n f v e free busy hu =
    let not_held : (i fd : ℕ) → ¬ Holds slot i fd n = λ i fd h.
      let (m, held, b) = v.node i fd h.0 h.1 h.2 in
      let en : m ≡ n = cc (held, h.3) in b (ap used en ∙ free) in
    record {
      node = λ i fd a b u. elim (here_or_there c gd i fd) [
        | inl (p, q, t) ↦ rw t (n, e, busy)
        | inr t ↦
            let (m, held, b') = v.node i fd a b (rw t at u) in
            rw t (
              m,
              held,
              λ z. elim (Bool-cases (n == m)) [
                | inl same ↦ let en : n ≡ m = ground arith in b' (sym (ap used en) ∙ free)
                | inr other ↦ b' (sym (hu m (ground arith)) ∙ z)
              ],
            )
      ];
      apart = λ i fd j ge m hi hj. elim (Holds-written slot c gd f i fd m hi) [
        | inl (p, q, u, x) ↦ elim (Holds-written slot c gd f j ge m hj) [
          | inl (p', q', u', x') ↦ (sym p ∙ p', sym q ∙ q')
          | inr (t', hj') ↦
              let en : m ≡ n = cc (x, e) in
              absurd (not_held j ge (subst (λ k. Holds slot j ge k) en hj'))
        ]
        | inr (t, hi') ↦ elim (Holds-written slot c gd f j ge m hj) [
          | inl (p', q', u', x') ↦
              let en : m ≡ n = cc (x', e) in
              absurd (not_held i fd (subst (λ k. Holds slot i fd k) en hi'))
          | inr (t', hj') ↦ v.apart i fd j ge m hi' hj'
        ]
      ];
    }
