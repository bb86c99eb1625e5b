-- ===== src/SmokeSuite/Logs.antt =====
-- utils/transport-smoke-suite/src/logs.rs: markers in a log that grows. Each look at the log and at the clock
-- is an event; `String::lines` and `trim_end_matches` are parameters.
pub mod Waiting
use up_streamer_rust.Base.{
  ℕ, zero, suc, ◌+◌, ◌-◌, ◌%◌, ◌^◌, ◌≤◌, ◌<◌, String, ◌≡◌, refl, sym, ap, ◌∙◌, ◌≢◌, ◌↔◌, ◌⊎◌, inl,
  inr, Bool, true, false, not, ◌&&◌, ◌||◌, Option, none, some, List, [], ◌∷◌, map, arith, ltb, leb,
  if◌then◌else◌, Result, ok, err, Bool-cases, Option-cases, Result-cases, or_else, or_else_assoc,
  and_then, and_then_ok, of_ok, or_else-none, or_else_self, Equality, ◌==◌, nat_equality,
  string_equality, option_beq, option_beq_iff, option_equality, pair_equality, beq_self, eq_of_beq,
  beq_false, ne_of_beq, beq_comm,
}
use Prim.Native.String.{◌++◌}
use up_streamer_rust.Base.Lists.{length, count, push}
use up_streamer_rust.SmokeSuite.Host.{Failure, with_context, bail}

pub record LogOps : Type 0 where
  pub lines : String → List String
  pub trim_end : String → String

-- A log file at one moment: none where it does not exist.
abbrev pub Log : Type 0
Log = Option (Result String String)

module _ (o : LogOps) (log_path : String) where
  unfoldable pub count_exact_marker : Log → String → Result Failure ℕ
  count_exact_marker none marker = ok 0
  count_exact_marker (some content) marker =
      and_then (with_context ("unable to read log file " ++ log_path) content)
        (λ text. ok (count (λ line. o.trim_end line == marker) (o.lines text)))

  unfoldable pub has_exact_marker : Log → String → Result Failure Bool
  unfolding count_exact_marker
  has_exact_marker log marker = and_then (count_exact_marker log marker) (λ n. ok (ltb 0 n))

  abbrev pub pop_front : List String → List String
  pop_front [] = []
  pop_front (x ∷ rest) = rest

  -- The loop over the lines with the deque.
  unfoldable pub keep_last : ℕ → List String → List String → List String
  keep_last max_lines deque [] = deque
  keep_last max_lines deque (line ∷ rest) =
      let deque' = if length deque == max_lines then pop_front deque else deque in
      keep_last max_lines (push deque' line) rest

  unfoldable pub tail_lines : Log → ℕ → Result Failure (List String)
  unfolding keep_last
  tail_lines none max_lines = ok []
  tail_lines (some content) max_lines =
      and_then (with_context ("unable to read log file " ++ log_path) content)
        (λ text. ok (keep_last max_lines [] (o.lines text)))

  abbrev pub unwrap_or_default : Result Failure (List String) → List String
  unwrap_or_default (ok lines) = lines
  unwrap_or_default (err e) = []

  abbrev pub join : String → List String → String
  join separator [] = ""
  join separator (x ∷ []) = x
  join separator (x ∷ (y ∷ rest)) = x ++ separator ++ join separator (y ∷ rest)

-- A turn of the loop: the log when it is searched, whether the deadline is over after that, and the log when
-- its tail is read.
pub record Look : Type 0 where
  pub searched : Log
  pub late : Bool
  pub at_the_end : Log

module _ (o : LogOps) (log_path marker : String) where
  abbrev pub timed_out : Look → Failure
  timed_out l =
      ("timed out waiting for marker '"
        ++ marker
        ++ "' in "
        ++ log_path
        ++ " (tail: "
        ++ join o log_path " | "
            (unwrap_or_default o log_path (tail_lines o log_path l.at_the_end 25))
        ++ ")")
      ∷ []

  -- One turn: an answer, or none before the next sleep.
  unfoldable pub look : Look → Option (Result Failure (Unit {0}))
  unfolding has_exact_marker tail_lines
  look l = elim (has_exact_marker o log_path l.searched marker) [
    | err e ↦ some (err e)
    | ok found ↦ if found then some (ok tt) else if l.late then some (err (timed_out l)) else none
  ]

  -- The loop over the turns that were made: none while it goes on.
  unfoldable pub wait_for_exact_marker : List Look → Option (Result Failure (Unit {0}))
  unfolding look
  wait_for_exact_marker [] = none
  wait_for_exact_marker (l ∷ rest) = or_else (look l) (wait_for_exact_marker rest)
