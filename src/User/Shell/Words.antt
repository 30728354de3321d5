-- ===== src/User/Shell/Words.antt =====
-- The first word of a line.
use pepin_os.Base.{
  ℕ, ◌≡◌, refl, ap, ◌∙◌, inl, inr, arith, ◌==◌, Bool, true, false, not, ◌&&◌, ◌||◌, List, [], ◌∷◌,
  ◌++◌, if◌then◌else◌, Bool-cases,
}
use pepin_os.User.Shell.{str_eq, str_starts, skip_to_space, skip_spaces, str_skip_word}

-- The bytes before the first space.
unfoldable pub word : List ℕ → List ℕ
word [] = []
word (c ∷ cs) = if c == 32 then [] else c ∷ word cs

-- There is a space.
unfoldable pub spaced : List ℕ → Bool
spaced [] = false
spaced (c ∷ cs) = c == 32 || spaced cs

-- Equal texts, and no others, are equal for `str_eq`.
pub str_eq_sound : (a b : List ℕ) → str_eq a b ≡ true → a ≡ b
unfolding str_eq
str_eq_sound [] [] h = refl
str_eq_sound [] (b ∷ ys) h = absurd (ground arith)
str_eq_sound (a ∷ xs) [] h = absurd (ground arith)
str_eq_sound (a ∷ xs) (b ∷ ys) h = elim (Bool-cases (a == b)) [
  | inl same ↦
      let e : a ≡ b = ground arith in
      ap (λ (x : ℕ). x ∷ xs) e ∙ ap (λ (l : List ℕ). b ∷ l) (str_eq_sound xs ys (rw same at h))
  | inr other ↦ absurd (ground (arith, rw other at h))
]

-- A line is the word `w` exactly if `w` is its first word and it has no space.
pub str_eq-word :
    (line w : List ℕ)
    → spaced w ≡ false
    → str_eq line w ≡ (str_eq (word line) w && not (spaced line))
unfolding str_eq word spaced
str_eq-word [] [] h = refl
str_eq-word [] (b ∷ ys) h = refl
str_eq-word (c ∷ cs) [] h = ground arith
str_eq-word (c ∷ cs) (b ∷ ys) h = ground (arith, str_eq-word cs ys)

-- It starts with `w` and a space exactly if `w` is its first word and it has a space.
pub str_starts-word :
    (line w : List ℕ)
    → spaced w ≡ false
    → str_starts line (w ++ (32 ∷ [])) ≡ (str_eq (word line) w && spaced line)
unfolding str_eq str_starts word spaced
str_starts-word [] [] h = refl
str_starts-word [] (b ∷ ys) h = refl
str_starts-word (c ∷ cs) [] h = ground arith
str_starts-word (c ∷ cs) (b ∷ ys) h = ground (arith, str_starts-word cs ys)

-- Nothing follows the only word.
pub str_skip_word-one : (line : List ℕ) → spaced line ≡ false → str_skip_word line ≡ []
unfolding str_skip_word skip_to_space skip_spaces spaced
str_skip_word-one [] h = refl
str_skip_word-one (c ∷ cs) h = elim (Bool-cases (c == 32)) [
  | inl here ↦ absurd (ground (arith, rw here at h))
  | inr other ↦ rw other (str_skip_word-one cs (rw other at h))
]
