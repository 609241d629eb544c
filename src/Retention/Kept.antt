-- ===== src/Retention/Kept.antt =====
-- Which steps of lifecycle.py's `apply_retention_plan` take no file from the disk.
use workspace_governance_con.Prelude.{
  ℕ, ◌≡◌, refl, ◌∙◌, Bool, true, false, Option, none, some, List, [], ◌∷◌, ◌++◌, any, arith,
  Bool-cases, inl, inr, if◌then◌else◌,
}
use mathlib.Core.Path.{subst}
use workspace_governance_con.Value.{Value}
use workspace_governance_con.Platform.{Platform}
use workspace_governance_con.Retention.Lines.{Bytes}
use workspace_governance_con.Retention.Disk.{
  FilePath, Disk, Host, path_eq, at, read, write, overwrite,
}
use workspace_governance_con.Retention.Model.{LedgerCompactionPlan, RetentionPlan}
use workspace_governance_con.Retention.Effects.{
  compact_ledger, export_to, split_and_write, write_both,
}
use workspace_governance_con.Retention.Apply.{append_ledger_event, compact_if_required}

-- Whether a file of this name is on a disk.
abbrev pub stands : FilePath → Disk → Bool
stands path disk = any (λ f. path_eq f.path path) disk

-- Every file of a disk is on another disk too.
abbrev pub IsKept : Disk → Disk → Type 0
IsKept before after = (path : FilePath) → stands path before ≡ true → stands path after ≡ true

any-append {ℓ} :
    {A : Type ℓ} (p : A → Bool) (xs ys : List A) → any p xs ≡ true → any p (xs ++ ys) ≡ true
any-append p [] ys h = cc
any-append p (x ∷ xs) ys h = elim (Bool-cases (p x)) [
  | inl e ↦ rw e refl
  | inr e ↦ rw e (any-append p xs ys (ground arith))
]

module _ (host : Host) where
  stands-overwrite :
      (path target : FilePath) (b : Bytes) (now : ℕ) (disk : Disk)
      → stands path (overwrite host target b now disk) ≡ stands path disk
  unfolding overwrite
  stands-overwrite path target b now [] = refl
  stands-overwrite path target b now (f ∷ fs) = elim (Bool-cases (at host target f)) [
    | inl e ↦ rw (e, stands-overwrite path target b now fs)
    | inr e ↦ rw (e, stands-overwrite path target b now fs)
  ]

  write-IsKept :
      (target : FilePath) (b : Bytes) (now : ℕ) (disk : Disk)
      → IsKept disk (write host target b now disk)
  unfolding write
  write-IsKept target b now disk path h = elim (Bool-cases (any (at host target) disk)) [
    | inl e ↦ rw e (stands-overwrite path target b now disk ∙ h)
    | inr e ↦ rw e (any-append (λ f. path_eq f.path path) disk _ h)
  ]

  write_both-IsKept :
      (e l : Bool) (export_path ledger_path : FilePath) (a b : Bytes) (now : ℕ) (disk : Disk)
      → host.writes export_path ≡ e
      → host.writes ledger_path ≡ l
      → IsKept disk (write_both host export_path a ledger_path b now disk).1
  unfolding write_both
  write_both-IsKept false l x y a b now disk eq lq = rw eq (λ path h. h)
  write_both-IsKept true false x y a b now disk eq lq = rw (eq, lq) (write-IsKept x a now disk)
  write_both-IsKept true true x y a b now disk eq lq =
      rw (eq, lq)
        (λ path h.
          write-IsKept y b now (write host x a now disk) path (write-IsKept x a now disk path h))

  split-IsKept :
      (o : Option Bytes) (plan : LedgerCompactionPlan) (x : FilePath) (now : ℕ) (disk : Disk)
      → IsKept disk (split_and_write host o plan x now disk).1
  unfolding split_and_write
  split-IsKept none plan x now disk = λ path h. h
  split-IsKept (some source) plan x now disk =
      write_both-IsKept (host.writes x) (host.writes plan.ledger_path) x plan.ledger_path _ _ now
        disk refl refl

  export-IsKept :
      (o : Option FilePath) (plan : LedgerCompactionPlan) (now : ℕ) (disk : Disk)
      → IsKept disk (export_to host o plan now disk).1
  unfolding export_to
  export-IsKept none plan now disk = λ path h. h
  export-IsKept (some x) plan now disk =
      split-IsKept (read host plan.ledger_path disk) plan x now disk

  either-IsKept :
      {A B : Type 0} (before : Disk) (b : Bool) (x y : A × (B × Disk))
      → IsKept before x.1.1
      → IsKept before y.1.1
      → IsKept before (if b then x else y).1.1
  either-IsKept before true x y h k = h
  either-IsKept before false x y h k = k

  -- A compaction, however it ends, takes no file from the disk.
  pub compact_if_required-IsKept :
      (p : Platform) (plan : RetentionPlan) (now : ℕ) (disk : Disk)
      → IsKept disk (compact_if_required p host plan now disk).1.1
  unfolding compact_if_required compact_ledger
  compact_if_required-IsKept p plan now disk =
      either-IsKept disk plan.ledger_compaction.action_required _ ([], (none, disk))
        (export-IsKept plan.ledger_compaction.export_path plan.ledger_compaction now disk)
        (λ path h. h)

  opened-IsKept :
      (opened : Bool) (written before after : Disk)
      → IsKept before written
      → Path (Option Disk) (if opened then some written else none) (some after)
      → IsKept before after
  opened-IsKept false written before after k e = cc
  opened-IsKept true written before after k e =
      let same : written ≡ after = cc in subst (IsKept before) same k

  -- Nor does the append to a ledger.
  pub append_ledger_event-IsKept :
      (p : Platform) (ledger : FilePath) (event : Value) (now : ℕ) (disk after : Disk)
      → append_ledger_event p host ledger event now disk ≡ some after
      → IsKept disk after
  unfolding append_ledger_event
  append_ledger_event-IsKept p ledger event now disk after =
      opened-IsKept (host.writes ledger) _ disk after
        (write-IsKept (host.resolve ledger) _ now disk)
