-- ===== src/Agent/Ledger.antt =====
-- What a run of agent_action_policy.py does to the ledger.
use workspace_governance_con.Prelude.{
  ℕ, ◌≡◌, ap, Bool, true, false, Option, none, some, ◌++◌, String, if◌then◌else◌,
}
use mathlib.Core.Path.{subst}
use workspace_governance_con.Value.{Value, Fields}
use workspace_governance_con.Platform.{Platform}
use workspace_governance_con.Retention.Disk.{FilePath, Disk, Host, path_eq, read, write}
use workspace_governance_con.Retention.Apply.{append_ledger_event, event_line, or_new}
use workspace_governance_con.Retention.Store.{read-write, read-write_other}
use workspace_governance_con.Agent.Model.{Result, ok, err, Bundle, Now}
use workspace_governance_con.Agent.Decide.{evaluate_agent_action_request}
use workspace_governance_con.Agent.Run.{
  issued, appended_to, with_event, with_decision, build_agent_action_policy_ledger_event,
  run_agent_action_evaluation,
}

module _ (p : Platform) (host : Host) (b : Bundle) (ledger_path : FilePath) (time : ℕ) (disk : Disk)
    (fixed : host.resolve (host.resolve ledger_path) ≡ host.resolve ledger_path) where
  -- The place of the ledger: where its path, which may be relative or a link, resolves to.
  abbrev pub place : FilePath
  place = host.resolve ledger_path

  -- The ledger has one line more, and every other file is as it was.
  abbrev pub Appended : Value → Disk → Type 0
  Appended event after =
      (read host place after ≡ some (or_new (read host place disk) ++ event_line p host event))
      × ((u : FilePath) → path_eq place u ≡ false → read host u after ≡ read host u disk)

  written_event :
      (opened : Bool) (event : Value) (after : Disk)
      → (if opened
          then some (
              write host place (or_new (read host place disk) ++ event_line p host event) time disk)
          else none)
        ≡ some after
      → Appended event after
  written_event false event after h = cc
  written_event true event after h =
      let bytes = or_new (read host place disk) ++ event_line p host event in
      let e : write host place bytes time disk ≡ after = cc in
      subst (Appended event) e (
        read-write host place bytes time disk fixed,
        λ u apart. read-write_other host place u bytes time disk fixed apart,
      )

  appended_to-issued :
      (decision fields : Fields) (event event' : Value) (o : Option Disk) (after : Disk)
      → appended_to p host b decision event o ≡ issued fields event' after
      → (decision ≡ fields) × (event ≡ event') × (o ≡ some after)
  unfolding appended_to
  appended_to-issued d f e e' none after h = cc
  appended_to-issued d f e e' (some x) after h = (cc, cc, cc)

  with_event-issued :
      (decision fields : Fields) (e : Result Value) (event : Value) (after : Disk)
      → with_event p host b ledger_path decision e time disk ≡ issued fields event after
      → (decision ≡ fields) × (e ≡ ok event) × Appended event after
  unfolding with_event append_ledger_event
  with_event-issued d f (err x) event after h = cc
  with_event-issued d f (ok e) event after h =
      let (same, same_event, o) = appended_to-issued d f e event _ after h in
      let a : Appended e after = written_event (host.writes ledger_path) e after o in
      (same, ap ok same_event, subst (λ v. Appended v after) same_event a)

  with_decision-issued :
      (actor : String) (d : Result Fields) (fields : Fields) (event : Value) (after : Disk)
      → with_decision p host b actor ledger_path d time disk ≡ issued fields event after
      → (d ≡ ok fields)
        × (build_agent_action_policy_ledger_event p actor fields ≡ ok event)
        × Appended event after
  unfolding with_decision
  with_decision-issued actor (err x) fields event after h = cc
  with_decision-issued actor (ok d) fields event after h =
      let (same, e, a) =
        with_event-issued d fields (build_agent_action_policy_ledger_event p actor d) event after
          h in
      (
        ap ok same,
        subst (λ v. build_agent_action_policy_ledger_event p actor v ≡ ok event) same e,
        a,
      )

  -- Where resolving a resolved ledger path changes nothing: a run that returns has issued the decision of
  -- the evaluation and its event; it has appended that event to the file that the ledger path resolves
  -- to, every byte before it kept, and has changed no other file.
  pub run_agent_action_evaluation-Appended :
      (request current : Value) (actor : String) (now : Now) (fields : Fields) (event : Value)
      (after : Disk)
      → run_agent_action_evaluation p host b request current actor ledger_path now time disk
        ≡ issued fields event after
      → (evaluate_agent_action_request p b request current now ≡ ok fields)
        × (build_agent_action_policy_ledger_event p actor fields ≡ ok event)
        × Appended event after
  unfolding run_agent_action_evaluation
  run_agent_action_evaluation-Appended request current actor now fields event after h =
      with_decision-issued actor (evaluate_agent_action_request p b request current now) fields
        event after h
