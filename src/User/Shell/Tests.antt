-- ===== src/User/Shell/Tests.antt =====
-- The shell at concrete inputs.
use pepin_os.Base.{ℕ, ◌≡◌, refl, List, [], ◌∷◌, ◌++◌}
use pepin_os.Base.Text.{codes}
use pepin_os.User.Shell.{Editor, then_do, prompt, welcome, start, str_atoi, atoi_from}
use pepin_os.User.Shell.Files.{Balanced, start-Balanced}
use pepin_os.User.Shell.Session.{keys_of, transcript, AllLines, no_enter, start_lem}

abbrev fresh : Editor
fresh = record { line = λ _. 0; pos = 0 }

-- `lz`, which an erased key makes `ls`, and the name of a file.
abbrev two_lines : List (List ℕ)
two_lines = (codes "lz" ++ (8 ∷ codes "s")) ∷ codes "cat hola.txt" ∷ []

reads_number : str_atoi (codes "15 x") ≡ 15
unfolding str_atoi atoi_from
reads_number = refl

-- 2^32 + 2 is read as 2.
goes_round : str_atoi (codes "4294967298") ≡ 2
unfolding str_atoi atoi_from
goes_round = refl

start-Balanced_example : Balanced [] (start (codes "cat hola.txt\n") fresh)
start-Balanced_example = start-Balanced (codes "cat hola.txt\n") fresh

two_lines-AllLines : AllLines two_lines
unfolding AllLines no_enter
two_lines-AllLines = (refl, (refl, tt))

start_lem_example :
    start (keys_of two_lines) fresh ≡ then_do welcome (prompt (transcript two_lines))
start_lem_example = start_lem two_lines fresh two_lines-AllLines
