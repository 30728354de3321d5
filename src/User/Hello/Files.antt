-- ===== src/User/Hello/Files.antt =====
-- The files of user/hello.c.
use pepin_os.Base.{
  ℕ, zero, suc, ◌≡◌, refl, inl, inr, arith, ltb, true, false, List, [], ◌∷◌, Bool-cases,
}
use pepin_os.Base.Int.{ℤ, pos, negsuc, ltb_ℤ}
use pepin_os.User.Shell.{Program}
use pepin_os.User.Shell.Files.{BalancedIn}
use pepin_os.User.Hello.{dots, show_hello, hello}

dots-BalancedIn : (rounds : ℕ) → BalancedIn 64 [] (dots rounds)
unfolding BalancedIn dots
dots-BalancedIn zero = refl
dots-BalancedIn (suc rounds) = dots-BalancedIn rounds

show_hello-BalancedIn :
    (n : ℤ) (buf : ℕ → ℕ) (fds : List ℤ) (p : Program)
    → ltb_ℤ (pos 63) n ≡ false
    → BalancedIn 64 fds p
    → BalancedIn 64 fds (show_hello n buf p)
unfolding BalancedIn show_hello
show_hello-BalancedIn (negsuc n) buf fds p few h = h
show_hello-BalancedIn (pos zero) buf fds p few h = h
show_hello-BalancedIn (pos (suc n)) buf fds p few h =
    let inside : ltb (suc n) 64 ≡ true = ground (arith, few) in rw inside h

-- If no read is answered with more bytes than it asked for, `hello` reads at most 63 bytes, which its buffer of 64 bytes holds with the
-- 0 behind them, only from the file that it opened, and closes it before the dots.
hello-BalancedIn : (rounds : ℕ) → BalancedIn 64 [] (hello rounds)
unfolding BalancedIn hello
hello-BalancedIn rounds = λ fd. elim (Bool-cases (ltb_ℤ fd (pos 0))) [
  | inl missing ↦ rw missing (dots-BalancedIn rounds)
  | inr there ↦ rw there (
    ([], refl),
    omega arith,
    λ n buf few. show_hello-BalancedIn n buf (fd ∷ []) _ few ([], refl, dots-BalancedIn rounds),
  )
]
