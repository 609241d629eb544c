-- ===== src/Retention/Compaction.antt =====
-- What a compaction in lifecycle.py leaves of a ledger, and how many lines.
use workspace_governance_con.Prelude.{
  ℕ, ◌+◌, ◌-◌, ◌≤◌, ◌<◌, ◌≡◌, refl, ◌↔◌, sym, ap, ◌∙◌, true, false, some, ◌++◌, String, arith, leb,
  length, take, drop, take-append-drop, length-drop, Bool-cases, inl, inr, if◌then◌else◌,
}
use workspace_governance_con.Retention.Lines.{
  Bytes, splitlines, join, join-splitlines, join-append, length-splitlines-append,
  length-splitlines-join, splitlines-IsLine, IsLine, All-drop,
}
use workspace_governance_con.Retention.Disk.{FilePath, Disk, Host, path_eq, read, write}
use workspace_governance_con.Retention.Model.{LedgerCompactionPlan}
use workspace_governance_con.Retention.Plan.{compaction_of}
use workspace_governance_con.Retention.Effects.{
  ValidationArtifactRef, compact_ledger, split_and_write, write_both, export_to, artifact_ref,
}
use workspace_governance_con.Retention.Store.{read-write, read-write_other, path_eq-apart}

-- The lines of a ledger.
abbrev pub line_count : Bytes → ℕ
line_count b = length (splitlines b)

-- The parts that a compaction writes.
abbrev pub exported_part : ℕ → Bytes → Bytes
exported_part n source = join (take n (splitlines source))

abbrev pub retained_part : ℕ → Bytes → Bytes
retained_part n source = join (drop n (splitlines source))

parts-join : (n : ℕ) (source : Bytes) → exported_part n source ++ retained_part n source ≡ source
parts-join n source =
    sym (join-append (take n (splitlines source)) (drop n (splitlines source)))
    ∙ ap join (take-append-drop n (splitlines source))
    ∙ join-splitlines source

retained_lines :
    (n : ℕ) (source : Bytes) → line_count (retained_part n source) ≤ line_count source - n
retained_lines n source = omega (
  arith,
  length-splitlines-join (drop n (splitlines source))
      (All-drop IsLine n (splitlines source) (splitlines-IsLine source)),
  length-drop n (splitlines source),
)

module _ (host : Host) (plan : LedgerCompactionPlan) (export_path : FilePath) (source : Bytes)
    (now : ℕ) (disk : Disk) where
  compact_run :
      plan.export_path ≡ some export_path
      → read host plan.ledger_path disk ≡ some source
      → host.writes export_path ≡ true
      → host.writes plan.ledger_path ≡ true
      → let n = plan.compacted_line_count in
        compact_ledger host plan now disk ≡ (
          some (artifact_ref host export_path (exported_part n source)),
          write host plan.ledger_path
              (retained_part n source)
              now
              (write host export_path (exported_part n source) now disk),
        )
  unfolding compact_ledger export_to split_and_write write_both
  compact_run planned found ew lw = rw (planned, found, ew, lw)

  -- Where export and ledger are resolved and distinct places that can be written, a planned compaction
  -- succeeds; afterwards the export holds exactly the first lines of the ledger, as many as the plan
  -- compacts, the ledger holds exactly the others, and the two together are, byte for byte, the ledger
  -- before.
  pub compact_ledger_lossless :
      plan.export_path ≡ some export_path
      → read host plan.ledger_path disk ≡ some source
      → host.resolve export_path ≡ export_path
      → host.resolve plan.ledger_path ≡ plan.ledger_path
      → path_eq export_path plan.ledger_path ≡ false
      → host.writes export_path ≡ true
      → host.writes plan.ledger_path ≡ true
      → (ref : ValidationArtifactRef) × (after : Disk) × (exported : Bytes) × (kept : Bytes)
        × (compact_ledger host plan now disk ≡ (some ref, after))
        × (read host export_path after ≡ some exported)
        × (read host plan.ledger_path after ≡ some kept)
        × (exported ≡ join (take plan.compacted_line_count (splitlines source)))
        × (kept ≡ join (drop plan.compacted_line_count (splitlines source)))
        × (exported ++ kept ≡ source)
        × (line_count kept ≤ line_count source - plan.compacted_line_count)
  compact_ledger_lossless planned found er lr apart ew lw =
      let n = plan.compacted_line_count in
      let e = exported_part n source in
      let k = retained_part n source in
      let d1 = write host export_path e now disk in
      (
        artifact_ref host export_path e,
        write host plan.ledger_path k now d1,
        e,
        k,
        compact_run planned found ew lw,
        read-write_other host plan.ledger_path export_path k now d1 lr
              (path_eq-apart export_path plan.ledger_path apart)
            ∙ read-write host export_path e now disk er,
        read-write host plan.ledger_path k now d1 lr,
        refl,
        refl,
        parts-join n source,
        retained_lines n source,
      )

over : {m : ℕ} (source : Bytes) → leb (line_count source) m ≡ false → m < line_count source
over source h = ground arith

module _ (host : Host) (time : String) (ledger_path export_dir : FilePath) (max_events : ℕ)
    (source : Bytes) where
  abbrev planned : LedgerCompactionPlan
  planned = compaction_of host time ledger_path export_dir max_events source

  -- A compaction is planned exactly when the ledger has more lines than its budget. The ledger that it
  -- leaves has room for one more line: with the event of the application it is within the budget.
  pub compaction_of-within_budget :
      (line : Bytes)
      → 0 < max_events
      → IsLine line
      → ((planned.action_required ≡ true) ↔ (max_events < line_count source))
        × (line_count (retained_part planned.compacted_line_count source ++ line)
            ≤ (if planned.action_required then max_events else line_count source + 1))
  unfolding compaction_of
  compaction_of-within_budget line positive one =
      elim (Bool-cases (leb (line_count source) max_events)) [
        | inl small ↦ rw small (
          (λ h. cc, λ h. absurd (ground arith)),
          rw join-splitlines (omega (arith, length-splitlines-append source line, one)),
        )
        | inr large ↦ rw large (
          (λ h. ground arith, λ h. refl),
          let n = line_count source - (max_events - 1) in
              omega (
                arith,
                over source large,
                one,
                positive,
                length-splitlines-append (retained_part n source) line,
                retained_lines n source,
              ),
        )
      ]
