-- ===== src/User/Shell/Session.antt =====
-- The dialogue as a list of typed lines.
use pepin_os.Base.{
  ℕ, zero, suc, ◌≤◌, ◌<◌, ◌≡◌, refl, ap, ◌∙◌, inl, inr, arith, ◌==◌, ltb, Bool, true, false, not,
  ◌&&◌, List, [], ◌∷◌, ◌++◌, if◌then◌else◌, update, length, Bool-cases,
}
use pepin_os.Base.Text.{codes, until_nul, bytes_of}
use pepin_os.User.Shell.{
  Program, then_do, execute, Editor, is_enter, is_erase, edit, text_of, prompt, answer, session,
  welcome, start, welcome, start,
}
use pepin_os.User.Shell.Line.{
  typed, drop_last, type_key, type_keys, edit-typed, length-bytes_of, bytes_of-same,
}

-- No byte is 0.
pub no_nul : List ℕ → Bool
no_nul [] = true
no_nul (c ∷ cs) = not (c == 0) && no_nul cs

-- No key is Enter.
unfoldable pub no_enter : List ℕ → Bool
no_enter [] = true
no_enter (c ∷ cs) = not (is_enter c) && no_enter cs

until_nul-bytes_of :
    (n m : ℕ) (f : ℕ → ℕ)
    → n < m
    → no_nul (bytes_of n f) ≡ true
    → f n ≡ 0
    → until_nul (bytes_of m f) ≡ bytes_of n f
unfolding no_nul
until_nul-bytes_of n zero f h k z = absurd (omega arith)
until_nul-bytes_of zero (suc m) f h k z = rw z refl
until_nul-bytes_of (suc n) (suc m) f h k z =
    let first : f 0 == 0 ≡ false = ground (arith, k) in
    rw first (
      ap (λ (l : List ℕ). f 0 ∷ l)
        (until_nul-bytes_of n m (λ j. f (suc j)) (omega arith) (rw first at k) z))

no_nul-drop_last : (text : List ℕ) → no_nul text ≡ true → no_nul (drop_last text) ≡ true
unfolding no_nul drop_last
no_nul-drop_last [] h = refl
no_nul-drop_last (c ∷ []) h = refl
no_nul-drop_last (c ∷ d ∷ cs) h = ground (arith, no_nul-drop_last (d ∷ cs))

no_nul-append :
    (text : List ℕ) (c : ℕ) → no_nul text ≡ true → c == 0 ≡ false → no_nul (text ++ (c ∷ [])) ≡ true
unfolding no_nul
no_nul-append [] c h k = rw k refl
no_nul-append (b ∷ text) c h k = ground (arith, no_nul-append text c)

no_nul-type_key : (c : ℕ) (text : List ℕ) → no_nul text ≡ true → no_nul (type_key c text) ≡ true
unfolding type_key
no_nul-type_key c text h = ground (arith, no_nul-drop_last text h, no_nul-append text c h)

-- The line that `execute` is given is what was typed.
entered :
    (c : ℕ) (e : Editor)
    → c == 0 ≡ false
    → is_enter c ≡ true
    → e.pos ≤ 127
    → no_nul (typed e) ≡ true
    → text_of (edit c e) ≡ typed e
unfolding text_of edit
entered c e char enter h k =
    let before = bytes_of-same e.pos (update e.line e.pos 0) e.line (λ i b. ground arith) in
    rw (char, enter)
      (until_nul-bytes_of e.pos 128 (update e.line e.pos 0) (omega arith) (ap no_nul before ∙ k)
          (ground arith)
        ∙ before)

-- What the keys of a line show: each that takes a byte back.
pub echoes : List ℕ → List ℕ → Program → Program
echoes [] text next = next
echoes (c ∷ cs) text next =
    let rest = echoes cs (type_key c text) next in
    if not (c == 0) && is_erase c && ltb 0 (length text)
    then Program.sys_print (8 ∷ 32 ∷ 8 ∷ []) rest
    else rest

-- The dialogue over lines of keys.
pub transcript : List (List ℕ) → Program
transcript [] = Program.done
transcript (keys ∷ lines) = echoes keys [] (
    Program.sys_print (codes "\n") (
      Program.sys_setcolor 0x07
        (then_do (execute (type_keys keys [])) (prompt (transcript lines)))))

-- The keys of the lines, each followed by Enter.
pub keys_of : List (List ℕ) → List ℕ
keys_of [] = []
keys_of (keys ∷ lines) = keys ++ (10 ∷ keys_of lines)

unfoldable pub AllLines : List (List ℕ) → Type 0
AllLines [] = Unit
AllLines (keys ∷ lines) = (no_enter keys ≡ true) × AllLines lines

enter_pos : (e : Editor) → (edit 10 e).pos ≡ 0
unfolding edit
enter_pos e = refl

answer_enter :
    (e : Editor) (next : Program)
    → answer 10 e next
      ≡ Program.sys_print
          (codes "\n")
          (Program.sys_setcolor 0x07 (then_do (execute (text_of (edit 10 e))) (prompt next)))
unfolding answer
answer_enter e next = refl

answer_key :
    (c : ℕ) (e : Editor) (next : Program)
    → is_enter c ≡ false
    → answer c e next ≡ (
        if not (c == 0) && is_erase c && ltb 0 (length (typed e))
        then Program.sys_print (8 ∷ 32 ∷ 8 ∷ []) next
        else next)
unfolding answer
answer_key c e next h =
    rw (length-bytes_of e.pos e.line)
      (elim (Bool-cases (c == 0)) [ inl null ↦ rw null refl | inr char ↦ rw (char, h) refl ])

one_line :
    (keys cs : List ℕ) (e : Editor) (next : Program)
    → no_enter keys ≡ true
    → e.pos ≤ 127
    → no_nul (typed e) ≡ true
    → ((e' : Editor) → e'.pos ≡ 0 → session cs e' ≡ next)
    → session (keys ++ (10 ∷ cs)) e
      ≡ echoes keys (typed e) (
          Program.sys_print (codes "\n") (
            Program.sys_setcolor 0x07 (then_do (execute (type_keys keys (typed e))) (prompt next))))
unfolding session echoes type_keys no_enter
one_line [] cs e next h b k after =
    rw
      (
        answer_enter e (session cs (edit 10 e)),
        entered 10 e refl refl b k,
        after (edit 10 e) (enter_pos e),
      )
      refl
one_line (c ∷ keys) cs e next h b k after =
    let stays : is_enter c ≡ false = ground (arith, h) in
    let (text, inside) = edit-typed c e stays b in
    let rest =
      one_line keys cs (edit c e) next (rw stays at h) inside
        (ap no_nul text ∙ no_nul-type_key c (typed e) k) after in
    rw (answer_key c e (session (keys ++ (10 ∷ cs)) (edit c e)) stays, rest, text) refl

session_lem :
    (lines : List (List ℕ)) (e : Editor)
    → AllLines lines
    → e.pos ≡ 0
    → session (keys_of lines) e ≡ transcript lines
unfolding keys_of transcript AllLines session no_nul
session_lem [] e h z = refl
session_lem (keys ∷ lines) e (h, hs) z =
    let empty : typed e ≡ [] = ap (λ (n : ℕ). bytes_of n e.line) z in
    one_line keys (keys_of lines) e (transcript lines) h (omega (arith, z)) (ap no_nul empty)
      (λ e' z'. session_lem lines e' hs z')
    ∙ rw empty refl

-- For lines of keys that are each ended by Enter, the shell's dialogue depends on the texts of
-- the lines only: each line is executed as the text that its keys make, at most 127 bytes with
-- the erased ones left out, whatever the buffer held.
pub start_lem :
    (lines : List (List ℕ)) (e : Editor)
    → AllLines lines
    → start (keys_of lines) e ≡ then_do welcome (prompt (transcript lines))
unfolding start
start_lem lines e h = rw (session_lem lines (record e { pos = 0 }) h refl) refl
