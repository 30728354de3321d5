-- ===== src/Drivers/Screen.antt =====
-- drivers/screen.c: the VGA text screen at 0xB8000. The state is the memory, byte by byte, the
-- three variables `kX`, `kY` and `kattr`, and the position that the two outb pairs of
-- `update_cursor` give to the hardware.
pub mod Scroll
pub mod Cursor
pub mod Tab
pub mod Text
mod Tests
use pepin_os.Base.{
  ℕ, zero, suc, ◌+◌, ◌-◌, ◌*◌, ◌/◌, ◌%◌, ◌^◌, ltb, ◌==◌, if◌then◌else◌, update, u32_mod, mul32,
  add32, bit_and, List, [], ◌∷◌,
}
use pepin_os.Base.Int.{ℤ, pos, ◌+ℤ◌, ◌-ℤ◌, scale, rem, ltb_ℤ, to_unsigned, to_char}

abbrev pub ramscreen : ℕ
ramscreen = 0xB_8000

abbrev pub screenlim : ℕ
screenlim = 0xB_8FA0

pub record Screen : Type 0 where
  pub video : ℕ → ℕ
  pub kx : ℤ
  pub ky : ℤ
  pub kattr : ℕ
  pub cursor : ℕ

-- `pos` is an `unsigned short`, sent in two bytes.
pub update_cursor : Screen → Screen
update_cursor s =
    let at = to_unsigned (2 ^ 16) (scale 80 s.ky +ℤ s.kx) in
    record s { cursor = bit_and at 0xFF + 256 * bit_and (at / 2 ^ 8) 0xFF }

-- One round of the loop of `scrollup`, at the address `v`.
pub scroll_cell : ℕ → ℕ → (ℕ → ℕ) → ℕ → ℕ
scroll_cell n v m =
    let tmp = add32 v (mul32 n 160) in
    if ltb tmp screenlim
    then (let m' = update m v (m tmp) in update m' (v + 1) (m' (tmp + 1)))
    else update (update m v 0) (v + 1) 0x07

-- `for (video = RAMSCREEN; video < SCREENLIM; video += 2)`, with the rounds that are left.
pub scroll_from : ℕ → ℕ → ℕ → (ℕ → ℕ) → ℕ → ℕ
scroll_from zero n v m = m
scroll_from (suc rounds) n v m = scroll_from rounds n (v + 2) (scroll_cell n v m)

-- The subtraction from `kY` is made on 32-bit unsigned numbers and stored in a `char`.
pub scrollup : ℕ → Screen → Screen
unfolding scroll_from scroll_cell
scrollup n s =
    let y = to_char (pos (to_unsigned u32_mod (s.ky -ℤ pos n))) in
    record s {
      video = scroll_from ((screenlim - ramscreen) / 2) n ramscreen s.video;
      ky = if ltb_ℤ y (pos 0) then pos 0 else y;
    }

-- The address that `putcar` writes to.
pub cell_address : Screen → ℕ
cell_address s = to_unsigned u32_mod (pos ramscreen +ℤ scale 2 s.kx +ℤ scale 160 s.ky)

-- The branches of `putcar`, before it scrolls.
pub put_char : ℕ → Screen → Screen
unfolding cell_address
put_char c s =
    if c == 10
    then record s { kx = pos 0; ky = to_char (s.ky +ℤ pos 1) }
    else if c == 9
    then record s { kx = to_char (s.kx +ℤ pos 8 -ℤ rem s.kx 8) }
    else if c == 13
    then record s { kx = pos 0 }
    else (let v = cell_address s in
        let x = to_char (s.kx +ℤ pos 1) in
        let t = record s { video = update (update s.video v c) (v + 1) s.kattr; kx = x } in
        if ltb_ℤ (pos 79) x then record t { kx = pos 0; ky = to_char (t.ky +ℤ pos 1) } else t)

pub scroll_if_needed : Screen → Screen
scroll_if_needed s =
    if ltb_ℤ (pos 24) s.ky then scrollup (to_unsigned u32_mod (s.ky -ℤ pos 24)) s else s

pub putcar : ℕ → Screen → Screen
putcar c s = update_cursor (scroll_if_needed (put_char c s))

-- `print`, on the characters before the terminating 0.
unfoldable pub print : List ℕ → Screen → Screen
print [] s = s
print (c ∷ cs) s = print cs (putcar c s)
