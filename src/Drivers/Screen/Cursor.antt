-- ===== src/Drivers/Screen/Cursor.antt =====
-- The cursor stays on the screen while no tabulator is printed.
use pepin_os.Base.{
  ℕ, ◌+◌, ◌*◌, ◌/◌, ◌%◌, ◌^◌, ◌≤◌, ◌<◌, ◌≡◌, refl, ap, ◌∙◌, ◌≢◌, inl, inr, arith, ◌==◌, ltb, leb,
  min, Bool, not, ◌&&◌, ◌||◌, if◌then◌else◌, update, Bool-cases,
}
use pepin_os.Base.Int.{pos}
use pepin_os.Drivers.Screen.{
  Screen, putcar, put_char, scroll_if_needed, update_cursor, cell_address, ramscreen, screenlim,
}
use pepin_os.Drivers.Screen.Scroll.{scrollup_lem, scroll_one, scrollup_place, scroll_not_needed}
use pepin_os.Base.Bits.Masks.{bit_and_low}

-- The cursor stands in one of the 25 rows and 80 columns.
pub record IsOnScreen (s : Screen) : Type 0 where
  pub x : ℕ
  pub y : ℕ
  pub kx : s.kx ≡ pos x
  pub ky : s.ky ≡ pos y
  pub column : x < 80
  pub row : y < 25

pub cell_address_bounds :
    (s : Screen) → IsOnScreen s → (ramscreen ≤ cell_address s) × (cell_address s + 1 < screenlim)
unfolding cell_address
cell_address_bounds s o = ground (arith, o.kx, o.ky, o.column, o.row)

-- Where the cursor goes next, by the character and the place, with row 25 for a place that has to
-- be scrolled to.
abbrev pub next_x : ℕ → ℕ → ℕ
next_x c x = if c == 10 || c == 13 || x == 79 then 0 else x + 1

abbrev pub next_y : ℕ → ℕ → ℕ → ℕ
next_y c x y = if c == 10 || (not (c == 13) && x == 79) then y + 1 else y

-- The characters that `putcar` writes to the screen.
abbrev pub is_printed : ℕ → Bool
is_printed c = not (c == 9 || c == 10 || c == 13)

-- The memory once the character is written, and before the screen is scrolled.
abbrev pub written : ℕ → Screen → ℕ → ℕ → ℕ → ℕ
written c s x y =
    if is_printed c
    then update (update s.video (ramscreen + 160 * y + 2 * x) c) (ramscreen + 160 * y + 2 * x + 1)
        s.kattr
    else s.video

module _ (c : ℕ) (s : Screen) (x y : ℕ) (ex : s.kx ≡ pos x) (ey : s.ky ≡ pos y) (column : x < 80)
    (row : y < 25) (no_tab : c ≢ 9) where
  put_char_x : (put_char c s).kx ≡ pos (next_x c x)
  unfolding put_char
  put_char_x = ground arith

  put_char_y : (put_char c s).ky ≡ pos (next_y c x y)
  unfolding put_char
  put_char_y = ground arith

  put_char_video : (put_char c s).video ≡ written c s x y
  unfolding put_char
  put_char_video = ground arith

record Scrolled (s : Screen) (y : ℕ) : Type 0 where
  kx : (scroll_if_needed s).kx ≡ s.kx
  ky : (scroll_if_needed s).ky ≡ pos (min y 24)
  kattr : (scroll_if_needed s).kattr ≡ s.kattr

scroll_keeps : (s : Screen) (y : ℕ) → s.ky ≡ pos y → y ≤ 25 → Scrolled s y
scroll_keeps s y e h = elim (Bool-cases (y == 25)) [
  | inl last_row ↦
      let e' : s.ky ≡ pos 25 = e ∙ ap pos (ground arith) in
      let p = scrollup_place s e' in
      let up = scroll_one s e' in
      record {
        kx = ap (λ (t : Screen). t.kx) up ∙ p.0;
        ky = ap (λ (t : Screen). t.ky) up ∙ p.1 ∙ ap pos (ground arith);
        kattr = ap (λ (t : Screen). t.kattr) up ∙ p.2;
      }
  | inr inside ↦
      let stays = scroll_not_needed s y e (ground arith) in
      record {
        kx = ap (λ (t : Screen). t.kx) stays;
        ky = ap (λ (t : Screen). t.ky) stays ∙ e ∙ ap pos (ground arith);
        kattr = ap (λ (t : Screen). t.kattr) stays;
      }
]

-- The memory with the screen moved up by one row.
abbrev pub row_up : (ℕ → ℕ) → ℕ → ℕ
row_up m a =
    if leb ramscreen a && ltb a screenlim
    then (if ltb (a + 160) screenlim then m (a + 160) else if a % 2 == 0 then 0 else 7)
    else m a

scroll_video :
    (s : Screen) (y a : ℕ)
    → s.ky ≡ pos y
    → y ≤ 25
    → (scroll_if_needed s).video a ≡ (if y == 25 then row_up s.video a else s.video a)
scroll_video s y a e h = elim (Bool-cases (y == 25)) [
  | inl yes_last ↦
      let e' : s.ky ≡ pos 25 = e ∙ ap pos (ground arith) in
      rw (yes_last, scroll_one s e') (scrollup_lem 1 s a (omega arith))
  | inr not_last ↦ rw (not_last, scroll_not_needed s y e (ground arith)) refl
]

-- What `putcar` has done with the character `c` at column `x` of row `y`.
pub record Printed (c : ℕ) (s : Screen) (x y : ℕ) (t : Screen) : Type 0 where
  pub kx : t.kx ≡ pos (next_x c x)
  pub ky : t.ky ≡ pos (min (next_y c x y) 24)
  pub video :
      (a : ℕ)
      → t.video a ≡ (if next_y c x y == 25 then row_up (written c s x y) a else written c s x y a)
  pub kattr : t.kattr ≡ s.kattr
  pub cursor : t.cursor ≡ 80 * min (next_y c x y) 24 + next_x c x

kattr-put_char : (c : ℕ) (s : Screen) → (put_char c s).kattr ≡ s.kattr
unfolding put_char
kattr-put_char c s = ground arith

update_cursor_lem :
    (s : Screen) (x y : ℕ)
    → s.kx ≡ pos x
    → s.ky ≡ pos y
    → x < 80
    → y < 25
    → (update_cursor s).cursor ≡ 80 * y + x
unfolding update_cursor
update_cursor_lem s x y ex ey hx hy =
    ground (arith, bit_and_low 8 (80 * y + x), bit_and_low 8 ((80 * y + x) / 2 ^ 8))

-- `putcar` of any character but the tabulator writes it with the current attribute at the cursor,
-- moves the cursor on, scrolls by one row when it leaves the last one, and moves the hardware's
-- cursor along.
pub putcar_lem :
    (c : ℕ) (s : Screen) (x y : ℕ)
    → s.kx ≡ pos x
    → s.ky ≡ pos y
    → x < 80
    → y < 25
    → c ≢ 9
    → Printed c s x y (putcar c s)
unfolding putcar update_cursor
putcar_lem c s x y ex ey hx hy no_tab =
    let px = put_char_x c s x y ex ey hx hy no_tab in
    let py = put_char_y c s x y ex ey hx hy no_tab in
    let bound : next_y c x y ≤ 25 = ground arith in
    let k = scroll_keeps (put_char c s) (next_y c x y) py bound in
    let fx : (scroll_if_needed (put_char c s)).kx ≡ pos (next_x c x) = k.kx ∙ px in
    record {
      kx = fx;
      ky = k.ky;
      video = λ a.
          scroll_video (put_char c s) (next_y c x y) a py bound
          ∙ ap (λ m. if next_y c x y == 25 then row_up m a else m a)
              (put_char_video c s x y ex ey hx hy no_tab);
      kattr = k.kattr ∙ kattr-put_char c s;
      cursor =
          update_cursor_lem (scroll_if_needed (put_char c s)) (next_x c x) (min (next_y c x y) 24)
            fx k.ky (ground arith) (omega arith);
    }

pub putcar-IsOnScreen : (c : ℕ) (s : Screen) → IsOnScreen s → c ≢ 9 → IsOnScreen (putcar c s)
putcar-IsOnScreen c s o no_tab =
    let p = putcar_lem c s o.x o.y o.kx o.ky o.column o.row no_tab in
    record {
      x = next_x c o.x;
      y = min (next_y c o.x o.y) 24;
      kx = p.kx;
      ky = p.ky;
      column = ground (arith, o.column);
      row = omega arith;
    }
