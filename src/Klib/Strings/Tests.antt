-- ===== src/Klib/Strings/Tests.antt =====
-- The strings "ab" at 10 and "b" at 20.
use pepin_os.Base.{◌≡◌, refl, arith, ◌==◌, some, [], ◌∷◌, if◌then◌else◌}
use pepin_os.Base.Int.{negsuc}
use pepin_os.Base.Memory.{Memory}
use pepin_os.Klib.Strings.{kstrcmp}
use pepin_os.Klib.Strings.Text.{IsText, ends, goes}
use pepin_os.Klib.Strings.Order.{Compared, kstrcmp_lem}

abbrev strings : Memory
strings a = if a == 10 then b'a' else if a == 11 then b'b' else if a == 20 then b'b' else 0

abbrev ab-IsText : IsText strings 10 (b'a' ∷ b'b' ∷ [])
ab-IsText =
    goes 10 b'a' refl (λ e. omega (arith, e))
      (goes 11 b'b' refl (λ e. omega (arith, e)) (ends 12 refl))

kstrcmp_lem_example : Compared 3 10 20 (b'a' ∷ b'b' ∷ []) (b'b' ∷ []) strings
kstrcmp_lem_example =
    kstrcmp_lem 3 10 20 (b'a' ∷ b'b' ∷ []) (b'b' ∷ []) strings ab-IsText
      (goes 20 b'b' refl (λ e. omega (arith, e)) (ends 21 refl)) (omega arith)

-- It comes first.
negative : kstrcmp 3 10 20 strings ≡ some (negsuc 0)
unfolding kstrcmp
negative = refl
