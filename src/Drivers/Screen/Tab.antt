-- ===== src/Drivers/Screen/Tab.antt =====
-- The tabulator, which `putcar` lets run past the last column.
use pepin_os.Base.{ℕ, ◌≤◌, ◌<◌, ◌≡◌, arith}
use pepin_os.Base.Int.{pos}
use pepin_os.Drivers.Screen.Scroll.{scroll_not_needed}
use pepin_os.Drivers.Screen.{Screen, putcar, put_char, cell_address, update_cursor, screenlim}

put_char_tab :
    (s : Screen) (x : ℕ) → s.kx ≡ pos x → 72 ≤ x → x < 80 → put_char 9 s ≡ record s { kx = pos 80 }
unfolding put_char
put_char_tab s x ex lo hi = rw ex (ground arith)

-- In the last eight columns of the last row a tabulator puts the cursor behind the screen: the next
-- character that is written goes to the first address that is no longer screen memory.
pub putcar_tab_escapes :
    (s : Screen) (x : ℕ)
    → s.kx ≡ pos x
    → s.ky ≡ pos 24
    → 72 ≤ x
    → x < 80
    → ((putcar 9 s).kx ≡ pos 80) × (cell_address (putcar 9 s) ≡ screenlim)
unfolding putcar update_cursor cell_address
putcar_tab_escapes s x ex ey lo hi =
    let moved = put_char_tab s x ex lo hi in
    let still = scroll_not_needed (record s { kx = pos 80 }) 24 ey (omega arith) in
    (ground (arith, moved, still), ground (arith, moved, still))
