-- ===== src/Retention/Survivors.antt =====
-- Which files a plan of lifecycle.py deletes, and what is left when it has deleted them.
use workspace_governance_con.Prelude.{
  ℕ, zero, suc, ◌+◌, ◌*◌, ◌-◌, ◌≤◌, ◌≡◌, refl, ap, inl, inr, Bool, true, false, not, ◌||◌, some,
  List, [], ◌∷◌, map, String, arith, filter, length, take, any, All, Bool-cases,
}
use workspace_governance_con.Prelude.Sorting.{any-sort_by}
use workspace_governance_con.Platform.{Platform}
use workspace_governance_con.Retention.Disk.{
  FilePath, File, Host, path_eq, path_eq→eq, path_eq_iff_refl,
}
use workspace_governance_con.Retention.Model.{Reason, RetentionCandidate}
use workspace_governance_con.Retention.Candidates.{
  ReasonsByPath, add_reason, add_all, aged, excess, reasons_by_path, is_older, candidates_of,
  candidate_from_path,
}

-- Whether a plan names the path of a file.
abbrev marks : FilePath → ReasonsByPath → Bool
marks path dict = any (λ e. path_eq path e.0.path) dict

path_same :
    (path : FilePath) (f g : File)
    → path_eq f.path g.path ≡ true
    → path_eq path f.path ≡ path_eq path g.path
path_same path f g same = ap (path_eq path) (path_eq→eq f.path g.path same)

marks-add_reason :
    (path : FilePath) (f : File) (r : Reason) (dict : ReasonsByPath)
    → marks path (add_reason f r dict) ≡ (path_eq path f.path || marks path dict)
unfolding add_reason
marks-add_reason path f r [] = refl
marks-add_reason path f r ((g, rs) ∷ rest) = elim (Bool-cases (path_eq f.path g.path)) [
  | inl same ↦ rw same (ground (arith, path_same path f g same))
  | inr apart ↦ rw apart (ground (arith, marks-add_reason path f r rest))
]

marks-add_all :
    (path : FilePath) (r : Reason) (fs : List File) (dict : ReasonsByPath)
    → marks path (add_all r fs dict) ≡ (any (λ f. path_eq path f.path) fs || marks path dict)
unfolding add_all
marks-add_all path r [] dict = refl
marks-add_all path r (f ∷ fs) dict =
    ground (arith, marks-add_all path r fs (add_reason f r dict), marks-add_reason path f r dict)

any-map {ℓ κ} :
    {A : Type ℓ} {B : Type κ} (p : B → Bool) (f : A → B) (xs : List A)
    → any p (map f xs) ≡ any (λ x. p (f x)) xs
any-map p f [] = refl
any-map p f (x ∷ xs) = rw (any-map p f xs)

-- More entries than a count are cut off where the first ones fail the test.
length-filter_rest {ℓ} :
    {A : Type ℓ} (p : A → Bool) (k : ℕ) (xs : List A)
    → All (λ x. p x ≡ false) (take k xs)
    → length (filter p xs) ≤ length xs - k
length-filter_rest p zero [] h = omega arith
length-filter_rest p zero (x ∷ xs) h = ground (arith, length-filter_rest p zero xs tt)
length-filter_rest p (suc k) [] h = omega arith
length-filter_rest p (suc k) (x ∷ xs) h = rw h.0 (omega (arith, length-filter_rest p k xs h.1))

-- What holds of every file named by a list holds of its files.
All-named {κ} :
    (P : File → Type κ) (fs : List File)
    → ((g : File) → any (λ f. path_eq g.path f.path) fs ≡ true → P g)
    → All P fs
All-named P [] h = tt
All-named P (f ∷ fs) h =
    (h f (rw (path_eq_iff_refl f.path)), All-named P fs (λ g e. h g (ground arith)))

-- A test that finds every old file leaves only files that are not.
All-kept :
    (old target : File → Bool) (fs : List File)
    → ((g : File) → any (λ f. path_eq g.path f.path) (filter old fs) ≡ true → target g ≡ true)
    → All (λ f. old f ≡ false) (filter (λ f. not (target f)) fs)
All-kept old target [] h = tt
All-kept old target (f ∷ fs) h =
    let rest =
      All-kept old target fs
        (λ g e. h g (elim (Bool-cases (old f)) [ inl o ↦ rw o (ground arith) | inr y ↦ rw y e ])) in
    elim (Bool-cases (target f)) [
      | inl t ↦ rw t rest
      | inr s ↦ rw s (elim (Bool-cases (old f)) [
        | inl o ↦ absurd (let e = h f (rw (o, path_eq_iff_refl f.path)) in ground arith)
        | inr y ↦ (y, rest)
      ])
    ]

-- A file that is not too old was modified within the days before the time.
All-recent :
    (now days : ℕ) (fs : List File)
    → All (λ f. is_older now days f ≡ false) fs
    → All (λ f. now ≤ f.modified + days * 86_400_000_000) fs
unfolding is_older
All-recent now days [] h = tt
All-recent now days (f ∷ fs) (recent, rest) = (ground (arith, recent), All-recent now days fs rest)

module _ (p : Platform) (host : Host) (root : FilePath) (category : String) where
  -- Whether a plan's candidates name the place at which a file stands.
  abbrev pub targeted : List RetentionCandidate → File → Bool
  targeted cs f = any (λ c. path_eq (host.resolve f.path) c.path) cs

  marks-resolve :
      (f : File) (dict : ReasonsByPath)
      → marks f.path dict ≡ true
      → any (λ e. path_eq (host.resolve f.path) (host.resolve e.0.path)) dict ≡ true
  marks-resolve f [] h = cc
  marks-resolve f ((g, rs) ∷ rest) h = elim (Bool-cases (path_eq f.path g.path)) [
    | inl same ↦ rw (path_eq→eq f.path g.path same, path_eq_iff_refl (host.resolve g.path))
    | inr apart ↦ ground (arith, marks-resolve f rest)
  ]

  module _ (days max_count now : ℕ) (files : List File) where
    abbrev pub planned_deletions : List RetentionCandidate
    planned_deletions = candidates_of p host root category (some days) max_count now files

    targeted-marks :
        (f : File)
        → marks f.path (reasons_by_path (some days) max_count now files) ≡ true
        → targeted planned_deletions f ≡ true
    unfolding candidates_of candidate_from_path
    targeted-marks f h =
        rw (any-sort_by, any-map)
          (marks-resolve f (reasons_by_path (some days) max_count now files) h)

    marks-reasons :
        (path : FilePath)
        → marks path (reasons_by_path (some days) max_count now files) ≡ (
            any (λ f. path_eq path f.path) (excess max_count files)
            || (any (λ f. path_eq path f.path) (filter (is_older now days) files) || false))
    unfolding reasons_by_path aged
    marks-reasons path = rw (marks-add_all, marks-add_all)

    -- A file that no planned deletion names was modified at most `days` days, of 86,400,000,000
    -- microseconds each, before the time of the plan, and at most `max_count` of the scanned files,
    -- counted after the deletions, are left.
    pub candidates_of-survivors :
        let survivors = filter (λ f. not (targeted planned_deletions f)) files in
        All (λ f. now ≤ f.modified + days * 86_400_000_000) survivors
        × (length survivors ≤ max_count)
    candidates_of-survivors = (
      All-recent now days _ (
          All-kept (is_older now days) (targeted planned_deletions) files
            (λ g e. targeted-marks g (ground (arith, marks-reasons g.path)))),
      omega (
        arith,
        length-filter_rest (λ f. not (targeted planned_deletions f)) (length files - max_count)
            files
            (All-named (λ f. not (targeted planned_deletions f) ≡ false)
              (take (length files - max_count) files)
              (λ g e.
                let t = targeted-marks g (unfold excess in ground (arith, marks-reasons g.path)) in
                rw t)),
      ),
    )
