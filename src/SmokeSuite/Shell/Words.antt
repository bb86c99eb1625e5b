-- ===== src/SmokeSuite/Shell/Words.antt =====
-- What a shell makes of the command lines.
use up_streamer_rust.Base.{
  ℕ, ◌≡◌, refl, sym, ap, ◌∙◌, inl, inr, ◌||◌, Option, none, some, List, [], ◌∷◌, ◌++◌,
  if◌then◌else◌, Bool-cases, ◌==◌, nat_equality, string_equality, option_equality, pair_equality,
  eq_of_beq,
}
use up_streamer_rust.Base.Bytes.{Text, codes}
use up_streamer_rust.Base.{Bool, false, ◌&&◌, leb, arith}
use up_streamer_rust.Base.Lists.{contains, append_assoc, append_nil}
use up_streamer_rust.SmokeSuite.Shell.{
  quote, escape, shell_escape, join, escape_all, render_exec_command,
}

-- Where a shell stands in a command line.
pub data Mode : Type 0 where
  between plain single double : Mode

-- A byte is put before the first word.
abbrev pub put : ℕ → Option (List Text) → Option (List Text)
put c none = none
put c (some []) = none
put c (some (w ∷ ws)) = some ((c ∷ w) ∷ ws)

abbrev pub end_word : Option (List Text) → Option (List Text)
end_word none = none
end_word (some ws) = some ([] ∷ ws)

-- The bytes that stand for themselves outside of quotes: letters, digits and some signs. Any other byte has
-- a meaning to the shell, or may have one.
abbrev pub is_plain : ℕ → Bool
is_plain c = (leb 97 c && leb c 122) || (leb 65 c && leb c 90) || (leb 45 c && leb c 57) || c == 95

-- The words of a command line, where blanks, single quotes, double quotes and bytes that stand for
-- themselves are all that it has: none is answered for any other byte outside of quotes, for a dollar,
-- a backquote, a backslash or an exclamation mark between double quotes, for a quote that is not closed, and
-- for a byte zero, which no command line can hold.
abbrev pub words : Mode → Text → Option (List Text)
words between [] = some []
words between (c ∷ rest) =
    let blank = words between rest in
    let single_quoted = words single rest in
    let double_quoted = words double rest in
    let letter = put c (words plain rest) in
    if c == 32
    then blank
    else if c == quote
    then single_quoted
    else if c == 34
    then double_quoted
    else if is_plain c
    then letter
    else none
words plain [] = some ([] ∷ [])
words plain (c ∷ rest) =
    let blank = end_word (words between rest) in
    let single_quoted = words single rest in
    let double_quoted = words double rest in
    let letter = put c (words plain rest) in
    if c == 32
    then blank
    else if c == quote
    then single_quoted
    else if c == 34
    then double_quoted
    else if is_plain c
    then letter
    else none
words single [] = none
words single (c ∷ rest) =
    let closed = words plain rest in
    let letter = put c (words single rest) in
    if c == quote then closed else if c == 0 then none else letter
words double [] = none
words double (c ∷ rest) =
    let closed = words plain rest in
    let letter = put c (words double rest) in
    if c == 34
    then closed
    else if c == 0 || (c == 36 || (c == 96 || (c == 92 || c == 33)))
    then none
    else letter

-- No byte of the texts is zero.
abbrev pub HasNoZero : List Text → Type 0
HasNoZero [] = Unit
HasNoZero (x ∷ rest) = (contains 0 x ≡ false) × HasNoZero rest

zero_free :
    (c : ℕ) (v : Text) → contains 0 (c ∷ v) ≡ false → (c == 0 ≡ false) × (contains 0 v ≡ false)
zero_free c v h = ground (arith, h)

abbrev prepend : Text → Option (List Text) → Option (List Text)
prepend [] ws = ws
prepend (c ∷ v) ws = put c (prepend v ws)

words-escape :
    (v rest : Text)
    → contains 0 v ≡ false
    → words single (escape v ++ (quote ∷ rest)) ≡ prepend v (words plain rest)
unfolding escape
words-escape [] rest free = refl
words-escape (c ∷ v) rest free = elim (Bool-cases (c == quote)) [
  | inl is ↦ rw is (
      ap (put quote) (words-escape v rest (zero_free c v free).1)
      ∙ ap (λ b. put b (prepend v (words plain rest))) (sym (eq_of_beq c quote is)))
  | inr other ↦ rw other (
      rw other
        (rw (zero_free c v free).0 (ap (put c) (words-escape v rest (zero_free c v free).1))))
]

prepend_word : (v : Text) (ws : List Text) → prepend v (some ([] ∷ ws)) ≡ some (v ∷ ws)
prepend_word [] ws = refl
prepend_word (c ∷ v) ws = ap (put c) (prepend_word v ws)

-- An escaped value is one word, up to the next blank.
words-shell_escape :
    (v rest : Text)
    → contains 0 v ≡ false
    → words between (shell_escape v ++ rest) ≡ prepend v (words plain rest)
unfolding shell_escape
words-shell_escape v rest free =
    ap (words single) (append_assoc (escape v) (quote ∷ []) rest) ∙ words-escape v rest free

words-join :
    (x : Text) (xs : List Text)
    → HasNoZero (x ∷ xs)
    → words between (join (codes " ") (escape_all (x ∷ xs))) ≡ some (x ∷ xs)
unfolding escape_all
words-join x [] free =
    ap (words between) (sym (append_nil (shell_escape x)))
    ∙ words-shell_escape x [] free.0
    ∙ prepend_word x []
words-join x (y ∷ rest) free =
    words-shell_escape x _ free.0
    ∙ ap (λ ws. prepend x (end_word ws)) (words-join y rest free.1)
    ∙ prepend_word x (y ∷ rest)

-- The shell reads the command line of a process as the word `exec`, the lossy text of the executable and
-- each argument, one word each and unchanged, whatever bytes they hold, except for a byte zero: blanks,
-- quotes, dollars, backslashes, semicolons and new lines included.
pub words-render_exec_command :
    (to_string_lossy : Text → Text) (executable : Text) (args : List Text)
    → HasNoZero (to_string_lossy executable ∷ args)
    → words between (render_exec_command to_string_lossy executable args)
      ≡ some (codes "exec" ∷ to_string_lossy executable ∷ args)
unfolding render_exec_command
words-render_exec_command to_string_lossy executable args free =
    ap (λ ws. put 101 (put 120 (put 101 (put 99 (end_word ws)))))
      (words-join (to_string_lossy executable) args free)
