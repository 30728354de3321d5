-- ===== src/Drivers/Screen/Tests.antt =====
-- The screen at concrete places.
use pepin_os.Base.{ℕ, ◌%◌, ◌≡◌, refl, arith, List, [], ◌∷◌}
use pepin_os.Base.Int.{pos}
use pepin_os.Drivers.Screen.{
  Screen, putcar, put_char, scroll_if_needed, update_cursor, cell_address, screenlim,
}
use pepin_os.Drivers.Screen.Cursor.{Printed, putcar_lem}
use pepin_os.Drivers.Screen.Tab.{putcar_tab_escapes}

abbrev at : ℕ → ℕ → Screen
at x y = record { video = λ a. a % 7; kx = pos x; ky = pos y; kattr = 0x0F; cursor = 0 }

writes_cell :
    ((putcar b'A' (at 3 1)).video 0xB_80A6 ≡ 65) × ((putcar b'A' (at 3 1)).video 0xB_80A7 ≡ 0x0F)
unfolding putcar put_char scroll_if_needed update_cursor
writes_cell = (refl, refl)

putcar_lem_example : Printed b'A' (at 79 24) 79 24 (putcar b'A' (at 79 24))
putcar_lem_example =
    putcar_lem b'A' (at 79 24) 79 24 refl refl (omega arith) (omega arith) (omega arith)

abbrev line : List ℕ
line = b'o' ∷ b'k' ∷ 10 ∷ []

putcar_tab_escapes_example :
    ((putcar 9 (at 75 24)).kx ≡ pos 80) × (cell_address (putcar 9 (at 75 24)) ≡ screenlim)
putcar_tab_escapes_example = putcar_tab_escapes (at 75 24) 75 refl refl (omega arith) (omega arith)
