-- ===== src/SmokeSuite/Shell.antt =====
-- utils/transport-smoke-suite/src/process.rs: the command lines for the shell.
pub mod Words
use up_streamer_rust.Base.{
  ℕ, zero, suc, ◌+◌, ◌-◌, ◌%◌, ◌^◌, ◌≤◌, ◌<◌, String, ◌≡◌, refl, sym, ap, ◌∙◌, ◌≢◌, ◌↔◌, ◌⊎◌, inl,
  inr, Bool, true, false, not, ◌&&◌, ◌||◌, Option, none, some, List, [], ◌∷◌, ◌++◌, map, arith, ltb,
  leb, if◌then◌else◌, Result, ok, err, Bool-cases, Option-cases, Result-cases, or_else,
  or_else_assoc, and_then, and_then_ok, of_ok, or_else-none, or_else_self, Equality, ◌==◌,
  nat_equality, string_equality, option_beq, option_beq_iff, option_equality, pair_equality,
  beq_self, eq_of_beq, beq_false, ne_of_beq, beq_comm,
}
use up_streamer_rust.Base.Bytes.{Text, codes}

abbrev pub quote : ℕ
quote = 39

-- `replace` of a quote by a closed quote, a quote between double quotes and an open quote.
unfoldable pub escape : Text → Text
escape [] = []
escape (c ∷ rest) =
    if c == quote then quote ∷ 34 ∷ quote ∷ 34 ∷ quote ∷ escape rest else c ∷ escape rest

unfoldable pub shell_escape : Text → Text
unfolding escape
shell_escape value = quote ∷ (escape value ++ (quote ∷ []))

abbrev pub join : Text → List Text → Text
join separator [] = []
join separator (x ∷ []) = x
join separator (x ∷ (y ∷ rest)) = x ++ (separator ++ join separator (y ∷ rest))

unfoldable pub render_env_prefix : List (Text × Text) → Text
unfolding shell_escape
render_env_prefix environment = join (codes " && ") (assignments environment)
  where
    assignments : List (Text × Text) → List Text
    assignments [] = []
    assignments ((key, value) ∷ rest) =
        (codes "export " ++ (key ++ (codes "=" ++ shell_escape value))) ∷ assignments rest

unfoldable pub escape_all : List Text → List Text
unfolding shell_escape
escape_all [] = []
escape_all (x ∷ rest) = shell_escape x ∷ escape_all rest

-- `to_string_lossy` is that of `Path`; the arguments are texts already.
unfoldable pub render_exec_command : (Text → Text) → Text → List Text → Text
unfolding escape_all
render_exec_command to_string_lossy executable args =
    codes "exec " ++ join (codes " ") (escape_all (to_string_lossy executable ∷ args))

-- `bootstrap_script` is the lossy text of the path of build/envsetup.sh below the root of the repository.
unfoldable pub with_optional_bootstrap : Text → Text → Bool → Text
unfolding shell_escape
with_optional_bootstrap bootstrap_script command no_bootstrap =
    if no_bootstrap
    then command
    else codes "source "
      ++ (shell_escape bootstrap_script ++ (codes " highest >/dev/null 2>&1 && " ++ command))
