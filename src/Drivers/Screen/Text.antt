-- ===== src/Drivers/Screen/Text.antt =====
-- `print` of a whole text.
use pepin_os.Base.{
  ℕ, ◌≤◌, ◌<◌, ◌≡◌, refl, ◌∙◌, ◌≢◌, ◌⊎◌, arith, ◌==◌, List, [], ◌∷◌, ◌++◌, if◌then◌else◌,
}
use pepin_os.Drivers.Screen.{Screen, putcar, print, ramscreen, screenlim}
use pepin_os.Drivers.Screen.Cursor.{
  IsOnScreen, putcar-IsOnScreen, putcar_lem, written, row_up, next_y,
}

abbrev pub NoTab : List ℕ → Type 0
NoTab [] = Unit
NoTab (c ∷ cs) = (c ≢ 9) × NoTab cs

abbrev pub Outside : ℕ → Type 0
Outside a = (a < ramscreen) ⊎ (screenlim ≤ a)

row_up-Outside : (m : ℕ → ℕ) (a : ℕ) → Outside a → row_up m a ≡ m a
row_up-Outside m a out = ground arith

written-Outside :
    (c : ℕ) (s : Screen) (x y a : ℕ) → Outside a → x < 80 → y < 25 → written c s x y a ≡ s.video a
written-Outside c s x y a out hx hy = ground arith

outside :
    (c : ℕ) (s : Screen) (x y a : ℕ)
    → Outside a
    → x < 80
    → y < 25
    → (if next_y c x y == 25 then row_up (written c s x y) a else written c s x y a) ≡ s.video a
outside c s x y a out hx hy =
    ground (arith, row_up-Outside (written c s x y) a out, written-Outside c s x y a out hx hy)

-- `print` of a text without tabulators leaves the cursor on the screen, and writes to no address
-- outside the screen's memory.
pub print-IsOnScreen :
    (cs : List ℕ) (s : Screen)
    → IsOnScreen s
    → NoTab cs
    → IsOnScreen (print cs s) × ((a : ℕ) → Outside a → (print cs s).video a ≡ s.video a)
unfolding print
print-IsOnScreen [] s o t = (o, λ a out. refl)
print-IsOnScreen (c ∷ cs) s o t =
    let p = putcar_lem c s o.x o.y o.kx o.ky o.column o.row t.0 in
    let rest = print-IsOnScreen cs (putcar c s) (putcar-IsOnScreen c s o t.0) t.1 in
    (rest.0, λ a out. rest.1 a out ∙ p.video a ∙ outside c s o.x o.y a out o.column o.row)

pub print-append : (xs ys : List ℕ) (s : Screen) → print (xs ++ ys) s ≡ print ys (print xs s)
unfolding print
print-append [] ys s = refl
print-append (x ∷ xs) ys s = print-append xs ys (putcar x s)
