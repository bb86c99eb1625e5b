-- ===== src/SmokeSuite/Env.antt =====
-- utils/transport-smoke-suite/src/env.rs: the paths and the branch that a run expects. The environment, git
-- and the file system are parameters.
use up_streamer_rust.Base.{
  String, ◌≡◌, Bool, true, Option, none, some, List, [], ◌∷◌, if◌then◌else◌, Result, ok, and_then,
  ◌==◌, nat_equality, string_equality, option_equality, pair_equality,
}
use Prim.Native.String.{◌++◌}
use up_streamer_rust.SmokeSuite.Host.{Failure, with_context, ensure, ensure_ok}

-- `current_branch` is `git rev-parse --abbrev-ref HEAD`: its success, its status as a text and its output.
pub record Surroundings : Type 0 where
  pub current_branch : String → Result String (Bool × (String × String))
  pub smoke_expected_branch : Option String
  pub exists : String → Bool
  pub join : String → String → String
  pub trim : String → String

abbrev pub filled : String → Option String
filled value = if value == "" then none else some value

abbrev pub checked : String → String → Bool × (String × String) → Result Failure (Unit {0})
checked expected current (success, (status, stdout)) =
    ensure success ("git branch query failed with status " ++ status) (
      ensure (current == expected)
        ("branch guard mismatch: expected '" ++ expected ++ "', found '" ++ current
          ++ "'. Pass --expected-branch or unset SMOKE_EXPECTED_BRANCH to control this guard")
        (ok tt))

module _ (surroundings : Surroundings) where
  abbrev pub resolve_artifacts_root : String → Option String → String
  resolve_artifacts_root repo_root none =
      surroundings.join (surroundings.join repo_root "target") "transport-smoke"
  resolve_artifacts_root repo_root (some artifacts_root) = artifacts_root

  abbrev pub resolve_expected_branch : Option String → Option String
  resolve_expected_branch (some branch) = some branch
  resolve_expected_branch none = elim surroundings.smoke_expected_branch [
    | none ↦ none
    | some value ↦ filled (surroundings.trim value)
  ]

  unfoldable pub enforce_expected_branch : String → Option String → Result Failure (Unit {0})
  enforce_expected_branch repo_root none = ok tt
  enforce_expected_branch repo_root (some expected) =
      and_then
        (with_context "failed to query current git branch" (surroundings.current_branch repo_root))
        (λ answer. checked expected (surroundings.trim answer.1.1) answer)

  unfoldable pub ensure_paths_exist : String → List String → Result Failure (Unit {0})
  ensure_paths_exist repo_root [] = ok tt
  ensure_paths_exist repo_root (relative_path ∷ rest) =
      ensure (surroundings.exists (surroundings.join repo_root relative_path))
        ("required path does not exist: " ++ surroundings.join repo_root relative_path)
        (ensure_paths_exist repo_root rest)

  abbrev pub AllExist : String → List String → Type 0
  AllExist repo_root [] = Unit
  AllExist repo_root (relative_path ∷ rest) =
      (surroundings.exists (surroundings.join repo_root relative_path) ≡ true)
      × AllExist repo_root rest

  -- If the check of the required paths succeeds, then all of them exist below the root of the repository.
  ensure_paths_exist-AllExist :
      (repo_root : String) (paths : List String)
      → ensure_paths_exist repo_root paths ≡ ok tt
      → AllExist repo_root paths
  unfolding ensure_paths_exist
  ensure_paths_exist-AllExist repo_root [] h = tt
  ensure_paths_exist-AllExist repo_root (path ∷ rest) h =
      let (there, later) = ensure_ok _ _ (ensure_paths_exist repo_root rest) tt h in
      (there, ensure_paths_exist-AllExist repo_root rest later)
