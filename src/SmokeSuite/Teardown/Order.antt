-- ===== src/SmokeSuite/Teardown/Order.antt =====
-- What a teardown does and what it leaves.
use up_streamer_rust.Base.{
  ◌≡◌, refl, sym, ap, ◌∙◌, inl, inr, Bool, true, false, ◌&&◌, Option, none, some, Result, ok, err,
  Bool-cases, Option-cases, nat_equality, string_equality, option_equality, pair_equality,
}
use mathlib.Core.Path.{subst}
use up_streamer_rust.Base.Loops.{then_with, then_with_ok}
use up_streamer_rust.SmokeSuite.Host.{Failure}
use up_streamer_rust.SmokeSuite.Process.{Os, ManagedProcess, has_exited, terminate_gracefully}
use up_streamer_rust.SmokeSuite.Process.Ending.{IsConsistent, terminate_gracefully-IsEnded}
use up_streamer_rust.SmokeSuite.Teardown.{
  Bash, Layout, Stage, Role, active, passive, streamer, sigint_grace_secs, sigterm_grace_secs,
  process, with_process, stop_mqtt_broker, ensure_process_exited, ended, terminate, with_world,
  stop_broker, end_all, ensure_all_exited, teardown,
}

abbrev Exits : Option ManagedProcess → Type 0
Exits none = Unit
Exits (some p) = has_exited p ≡ true

abbrev Consistent : Option ManagedProcess → Type 0
Consistent none = Unit
Consistent (some p) = IsConsistent p

-- The processes that were spawned have an end whenever they have an exit code.
pub record AllConsistent {W : Type 0} (s : Stage W) : Type 0 where
  pub active : Consistent s.active_process
  pub passive : Consistent s.passive_process
  pub streamer : Consistent s.streamer_process

abbrev same_role : Role → Role → Bool
same_role active active = true
same_role passive passive = true
same_role streamer streamer = true
same_role _ _ = false

module _ {W : Type 0} where
  process-with_process :
      (r : Role) (x : ManagedProcess × W) (s : Stage W) → process r (with_process r x s) ≡ some x.0
  process-with_process active x s = refl
  process-with_process passive x s = refl
  process-with_process streamer x s = refl

  process-with_other :
      (r j : Role) (x : ManagedProcess × W) (s : Stage W)
      → same_role r j ≡ false
      → process j (with_process r x s) ≡ process j s
  process-with_other active active x s h = cc
  process-with_other active passive x s h = refl
  process-with_other active streamer x s h = refl
  process-with_other passive active x s h = refl
  process-with_other passive passive x s h = cc
  process-with_other passive streamer x s h = refl
  process-with_other streamer active x s h = refl
  process-with_other streamer passive x s h = refl
  process-with_other streamer streamer x s h = cc

module _ {W : Type 0} (os : Os W) where
  terminate-none : (r : Role) (s : Stage W) → process r s ≡ none → terminate os r s ≡ (ok tt, s)
  unfolding terminate
  terminate-none r s h = rw (h, terminate) refl

  terminate-some :
      (r : Role) (s : Stage W) (p : ManagedProcess)
      → process r s ≡ some p
      → terminate os r s
        ≡ ended os r (terminate_gracefully os sigint_grace_secs sigterm_grace_secs (p, s.world)) s
  unfolding terminate
  terminate-some r s p h = rw (h, terminate) refl

  process-terminate_other :
      (r j : Role) (s : Stage W)
      → same_role r j ≡ false
      → process j (terminate os r s).1 ≡ process j s
  process-terminate_other r j s h = elim (Option-cases (process r s)) [
    | inl absent ↦ ap (λ x. process j x.1) (terminate-none r s absent)
    | inr (p, there) ↦
        ap (λ x. process j x.1) (terminate-some r s p there) ∙ process-with_other r j _ s h
  ]

  terminate-Exits :
      (r : Role) (s : Stage W)
      → Consistent (process r s)
      → (terminate os r s).0 ≡ ok tt
      → Exits (process r (terminate os r s).1)
  terminate-Exits r s c h = elim (Option-cases (process r s)) [
    | inl absent ↦
        subst Exits (sym (ap (λ x. process r x.1) (terminate-none r s absent) ∙ absent)) tt
    | inr (p, there) ↦
        let x = terminate_gracefully os sigint_grace_secs sigterm_grace_secs (p, s.world) in
        let after = terminate-some r s p there in
        let e =
          terminate_gracefully-IsEnded os sigint_grace_secs sigterm_grace_secs (p, s.world)
            (subst Consistent there c) in
        subst Exits (sym (ap (λ y. process r y.1) after ∙ process-with_process r x.1 s))
          (e.exited (sym (ap (λ y. y.0) after) ∙ h))
  ]

module _ {W : Type 0} (os : Os W) (s : Stage W) (c : AllConsistent s) where
  abbrev stage_1 : Stage W
  stage_1 = (terminate os active s).1

  abbrev stage_2 : Stage W
  stage_2 = (terminate os passive stage_1).1

  abbrev stage_3 : Stage W
  stage_3 = (terminate os streamer stage_2).1

  all_ended-Exits :
      (terminate os active s).0 ≡ ok tt
      → (terminate os passive stage_1).0 ≡ ok tt
      → (terminate os streamer stage_2).0 ≡ ok tt
      → (j : Role) → Exits (process j stage_3)
  all_ended-Exits a b d active =
      subst Exits
        (sym (
          process-terminate_other os streamer active stage_2 refl
          ∙ process-terminate_other os passive active stage_1 refl))
        (terminate-Exits os active s c.active a)
  all_ended-Exits a b d passive =
      subst Exits (sym (process-terminate_other os streamer passive stage_2 refl)) (
        terminate-Exits os passive stage_1
          (subst Consistent (sym (process-terminate_other os active passive s refl)) c.passive) b)
  all_ended-Exits a b d streamer =
      terminate-Exits os streamer stage_2
        (subst Consistent
          (sym (
            process-terminate_other os passive streamer stage_1 refl
            ∙ process-terminate_other os active streamer s refl))
          c.streamer)
        d

exited_ok : (p : Option ManagedProcess) (r : Role) → Exits p → ensure_process_exited p r ≡ ok tt
unfolding ensure_process_exited
exited_ok none r h = refl
exited_ok (some p) r h = rw h refl

checked :
    {W : Type 0} (x : Result Failure (Unit {0}) × Stage W)
    → (x.0 ≡ ok tt → ensure_all_exited x.1 ≡ ok tt)
    → then_with x (λ all_ended s'. (ensure_all_exited s', s')) ≡ x
checked (ok u, s) h = ap (λ a. (a, s)) (h refl)
checked (err e, s) h = refl

module _ {W : Type 0} where
  process-with_world :
      (j : Role) (x : Result Failure (Unit {0}) × W) (s : Stage W)
      → process j (with_world x s).1 ≡ process j s
  process-with_world active (answer, w) s = refl
  process-with_world passive (answer, w) s = refl
  process-with_world streamer (answer, w) s = refl

  all_exited : (s : Stage W) → ((j : Role) → Exits (process j s)) → ensure_all_exited s ≡ ok tt
  unfolding ensure_all_exited
  all_exited s h =
      rw
        (
          exited_ok s.active_process active (h active),
          exited_ok s.passive_process passive (h passive),
        )
        (exited_ok s.streamer_process streamer (h streamer))

module _ {W : Type 0} (os : Os W) (bash : Bash W) (layout : Layout)
    (requires_docker no_bootstrap : Bool) where
  abbrev broker : Stage W → Result Failure (Unit {0}) × Stage W
  broker = stop_broker os bash layout requires_docker no_bootstrap

  process-broker : (j : Role) (s : Stage W) → process j (broker s).1 ≡ process j s
  unfolding stop_broker
  process-broker j s = elim (Bool-cases (requires_docker && s.mqtt_broker_started)) [
    | inl started ↦
        rw (started, stop_broker)
          (process-with_world j (stop_mqtt_broker bash layout no_bootstrap s.world) s)
    | inr idle ↦ rw (idle, stop_broker) refl
  ]

  end_all-Exits :
      (s : Stage W)
      → AllConsistent s
      → (end_all os bash layout requires_docker no_bootstrap s).0 ≡ ok tt
      → (j : Role) → Exits (process j (end_all os bash layout requires_docker no_bootstrap s).1)
  unfolding end_all
  end_all-Exits s c h j =
      let (ua, a, to_b) = then_with_ok (terminate os active s) _ tt h in
      let s1 = (terminate os active s).1 in
      let (ub, b, to_c) =
        then_with_ok (terminate os passive s1) _ tt (sym (ap (λ x. x.0) to_b) ∙ h) in
      let s2 = (terminate os passive s1).1 in
      let (uc, d, to_end) =
        then_with_ok (terminate os streamer s2) _ tt (sym (ap (λ x. x.0) (to_b ∙ to_c)) ∙ h) in
      subst Exits
        (sym (
          ap (λ x. process j x.1) (to_b ∙ to_c ∙ to_end)
          ∙ process-broker j (terminate os streamer s2).1))
        (all_ended-Exits os s c a b d j)

  -- Where each process has an end whenever it has an exit code, the teardown does and answers exactly what
  -- ending the processes and the broker does and answers: its checks that no process remained
  -- alive never fail.
  pub teardown-end_all :
      (s : Stage W)
      → AllConsistent s
      → teardown os bash layout requires_docker no_bootstrap s
        ≡ end_all os bash layout requires_docker no_bootstrap s
  unfolding teardown
  teardown-end_all s c =
      checked (end_all os bash layout requires_docker no_bootstrap s)
        (λ h. all_exited _ (end_all-Exits s c h))

  after_failure :
      (x : Result Failure (Unit {0}) × Stage W) (e : Failure)
      (next : Unit {0} → Stage W → Result Failure (Unit {0}) × Stage W)
      (check : Unit {0} → Stage W → Result Failure (Unit {0}) × Stage W)
      → x.0 ≡ err e
      → then_with (then_with x next) check ≡ (err e, x.1)
  after_failure (ok u, s) e next check h = cc
  after_failure (err f, s) e next check h = ap (λ a. (a, s)) h

  -- When the active process cannot be ended, the teardown stops there with that error: no attempt is made to
  -- end the passive process or the streamer, or to stop the broker.
  pub teardown_failed :
      (s : Stage W) (e : Failure)
      → (terminate os active s).0 ≡ err e
      → let (answer, s') = teardown os bash layout requires_docker no_bootstrap s in
        (answer ≡ err e)
        × (s'.passive_process ≡ s.passive_process)
        × (s'.streamer_process ≡ s.streamer_process)
        × (s'.world ≡ (terminate os active s).1.world)
  unfolding teardown end_all
  teardown_failed s e h =
      let same =
        after_failure (terminate os active s) e
          (λ active_ended s1. then_with (terminate os passive s1) (λ passive_ended s2.
            then_with (terminate os streamer s2) (λ streamer_ended s3. broker s3)))
          (λ all_ended s'. (ensure_all_exited s', s')) h in
      (
        ap (λ x. x.0) same,
        ap (λ x. x.1.passive_process) same ∙ process-terminate_other os active passive s refl,
        ap (λ x. x.1.streamer_process) same ∙ process-terminate_other os active streamer s refl,
        ap (λ x. x.1.world) same,
      )
