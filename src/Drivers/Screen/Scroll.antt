-- ===== src/Drivers/Screen/Scroll.antt =====
-- What `scrollup` leaves on the screen.
use pepin_os.Base.{
  ℕ, zero, suc, ◌+◌, ◌*◌, ◌%◌, ◌≤◌, ◌<◌, ◌≡◌, refl, ap, arith, ◌==◌, ltb, leb, ◌&&◌, if◌then◌else◌,
  u32_mod,
}
use pepin_os.Base.Int.{pos, ltb_ℤ, to_unsigned, to_char, ◌-ℤ◌}
use pepin_os.Drivers.Screen.{
  Screen, scroll_cell, scroll_from, scrollup, scroll_if_needed, ramscreen, screenlim,
}

-- Scrolling by whole rows, from an even address on, with the cells from `v` on still unread.
scroll_cell_lem :
    (n v a : ℕ) (m : ℕ → ℕ)
    → n ≤ 25
    → v < screenlim
    → scroll_cell n v m a ≡ (
        if a == v
        then (if ltb (v + 160 * n) screenlim then m (v + 160 * n) else 0)
        else if a == v + 1
        then (if ltb (v + 160 * n) screenlim
            then (if n == 0 then m a else m (v + 160 * n + 1))
            else 0x07)
        else m a)
unfolding scroll_cell
scroll_cell_lem n v a m small lt = ground arith

scroll_from_lem :
    (r n v a : ℕ) (m : ℕ → ℕ)
    → n ≤ 25
    → v + 2 * r ≡ screenlim
    → scroll_from r n v m a ≡ (
        if leb v a && ltb a screenlim
        then (if ltb (a + 160 * n) screenlim then m (a + 160 * n) else if a % 2 == 0 then 0 else 7)
        else m a)
unfolding scroll_from
scroll_from_lem zero n v a m small e = ground arith
scroll_from_lem (suc r) n v a m small e = ground (
  arith,
  scroll_from_lem r n (v + 2) a (scroll_cell n v m) small (omega arith),
  scroll_cell_lem n v a m small,
  scroll_cell_lem n v (a + 160 * n) m small,
)

-- `scrollup` by at most 25 rows moves the screen up by that many rows: each byte is taken from the
-- same column further down, the rows that come in are blank, and memory outside the screen stays.
pub scrollup_lem :
    (n : ℕ) (s : Screen) (a : ℕ)
    → n ≤ 25
    → (scrollup n s).video a ≡ (
        if leb ramscreen a && ltb a screenlim
        then (if ltb (a + 160 * n) screenlim
            then s.video (a + 160 * n)
            else if a % 2 == 0
            then 0
            else 7)
        else s.video a)
unfolding scrollup
scrollup_lem n s a small = scroll_from_lem 2000 n ramscreen a s.video small refl

-- `putcar` scrolls only once the cursor has left the last row, and then by one row.
pub scroll_not_needed : (s : Screen) (y : ℕ) → s.ky ≡ pos y → y ≤ 24 → scroll_if_needed s ≡ s
unfolding scroll_if_needed
scroll_not_needed s y e h = ground arith

pub scroll_one : (s : Screen) → s.ky ≡ pos 25 → scroll_if_needed s ≡ scrollup 1 s
unfolding scroll_if_needed
scroll_one s e = ground arith

pub scrollup_place :
    (s : Screen)
    → s.ky ≡ pos 25
    → ((scrollup 1 s).kx ≡ s.kx) × ((scrollup 1 s).ky ≡ pos 24) × ((scrollup 1 s).kattr ≡ s.kattr)
unfolding scrollup
scrollup_place s e = (
  refl,
  ap
      (λ y.
        let z = to_char (pos (to_unsigned u32_mod (y -ℤ pos 1))) in
        if ltb_ℤ z (pos 0) then pos 0 else z)
      e,
  refl,
)
