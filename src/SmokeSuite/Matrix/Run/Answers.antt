-- ===== src/SmokeSuite/Matrix/Run/Answers.antt =====
-- What it means that a whole run of the matrix answers zero.
use up_streamer_rust.Base.{
  String, ◌≡◌, Option, List, ok, nat_equality, string_equality, option_equality, pair_equality,
}
use up_streamer_rust.SmokeSuite.Host.{Host}
use up_streamer_rust.SmokeSuite.Env.{Surroundings, resolve_expected_branch, enforce_expected_branch}
use up_streamer_rust.SmokeSuite.Claims.{ClaimsFile}
use up_streamer_rust.SmokeSuite.Teardown.{Bash, Layout}
use up_streamer_rust.SmokeSuite.Matrix.{MatrixHost, Cli, resolve_selected_scenarios}
use up_streamer_rust.SmokeSuite.Matrix.Run.{Disk, io, matrix_dir, claims_fit, build, resolve}
use up_streamer_rust.SmokeSuite.Matrix.Exit.{AllSucceeded}

module _ {W R : Type 0} (host : MatrixHost W) (disk : Disk W) (bash : Bash W) (layout : Layout)
    (surroundings : Surroundings) (files : Host R ClaimsFile) where
  -- The state in which the first scenario runs.
  abbrev pub after_build : Cli → W → W
  after_build cli w =
      let dir = matrix_dir host disk bash layout surroundings files cli w in
      (build host disk bash layout surroundings files cli (io (disk.create_dir_all dir w)).1).1

  -- What was checked before the scenarios ran, and that each of them succeeded.
  pub record IsPassed (only : List String) (artifacts_root : Option String) (cli : Cli) (w : W)
      : Type 0 where
    ids : List String
    on_branch :
        enforce_expected_branch surroundings cli.repo_root
          (resolve_expected_branch surroundings cli.expected_branch)
        ≡ ok tt
    known : resolve_selected_scenarios only ≡ ok ids
    fits : claims_fit host disk bash layout surroundings files cli ids ≡ ok tt
    succeeded :
        let resolved = resolve host disk bash layout surroundings files artifacts_root cli in
        AllSucceeded host resolved ids (after_build resolved w)
