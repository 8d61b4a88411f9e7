-- ===== src/Git/WorkingTree/Covered.antt =====
-- internal/git/git.go: what a working tree holds that EnsureCleanWorkingTreeWithEnv accepts.
use hooversion.Common.{
  Result, and-elim, Bool, true, false, ◌&&◌, ◌≡◌, ◌⊎◌, inl, inr, refl, List, [], ◌∷◌, ◌++◌, All,
  arith, ok, err, Bool-cases, bind-eq-ok, ok-injective, ◌>>=◌, ap, ◌∙◌,
}
use hooversion.Git.{Runner, Error, git_run_raw}
use hooversion.Git.Log.{split_nul}
use hooversion.Git.WorkingTree.{
  path_of, report, is_rename, unexpected_changes, ignored_files, unmanaged, is_exempt, exempt_paths,
  scope_of, ignored_command, status_command, verdict, judge, judge_ignored,
  ensure_clean_working_tree,
}
use hooversion.Text.Paths.{leads_down}
use hooversion.Text.{Text}

-- The records of `git status -z` with every path managed: one path for a change, and the
-- destination and the source for a rename or a copy.
pub data IsCovered (managed : Text → Bool) : List Text → Type 0 where
  no_change : IsCovered managed []
  change :
      (entry : Text) {rest : List Text}
      → is_rename entry ≡ false
      → managed (path_of entry) ≡ true
      → IsCovered managed rest
      → IsCovered managed (entry ∷ rest)
  rename :
      (entry source : Text) {rest : List Text}
      → is_rename entry ≡ true
      → managed (path_of entry) ≡ true
      → managed source ≡ true
      → IsCovered managed rest
      → IsCovered managed (entry ∷ source ∷ rest)

-- A report is empty only for a managed record before an empty rest.
report_empty :
    (covered : Bool) (entry : Text) (rest : Result Error (List Text))
    → report covered entry rest ≡ ok []
    → (covered ≡ true) × (rest ≡ ok [])
report_empty true entry (ok []) h = (refl, refl)
report_empty true entry (ok (x ∷ xs)) h = (refl, h)
report_empty false entry (ok xs) h = cc
report_empty covered entry (err e) h = cc

unexpected_changes-IsCovered :
    (managed : Text → Bool) (entries : List Text)
    → unexpected_changes managed entries ≡ ok []
    → IsCovered managed entries
unfolding unexpected_changes
unexpected_changes-IsCovered managed [] h = IsCovered.no_change
unexpected_changes-IsCovered managed (entry ∷ []) h = elim (Bool-cases (is_rename entry)) [
  | inl r ↦ absurd (ground arith)
  | inr r ↦
      let e : report (managed (path_of entry)) entry (ok []) ≡ ok [] = ground arith in
      IsCovered.change entry r (report_empty _ entry (ok []) e).0 IsCovered.no_change
]
unexpected_changes-IsCovered managed (entry ∷ source ∷ rest) h =
    elim (Bool-cases (is_rename entry)) [
      | inl r ↦
          let both = managed (path_of entry) && managed source in
          let e : report both entry (unexpected_changes managed rest) ≡ ok [] = ground arith in
          let (covered, later) = report_empty both entry (unexpected_changes managed rest) e in
          let (m, n) = and-elim _ _ covered in
          IsCovered.rename entry source r m n (unexpected_changes-IsCovered managed rest later)
      | inr r ↦
          let later = unexpected_changes managed (source ∷ rest) in
          let e : report (managed (path_of entry)) entry later ≡ ok [] = ground arith in
          let (covered, k) = report_empty (managed (path_of entry)) entry later e in
          IsCovered.change entry r covered (unexpected_changes-IsCovered managed (source ∷ rest) k)
    ]

unmanaged-All :
    (managed : Text → Bool) (paths : List Text)
    → unmanaged managed paths ≡ []
    → All (λ path. managed path ≡ true) paths
unfolding unmanaged
unmanaged-All managed [] h = tt
unmanaged-All managed (path ∷ paths) h = elim (Bool-cases (managed path)) [
  | inl e ↦ (e, unmanaged-All managed paths (rw e at h))
  | inr e ↦ cc
]

-- What an accepted tree holds inside of a managed directory: Git ignores no file there but managed
-- ones. A path that names no directory below the root, or is managed for itself, is free.
abbrev pub HidesNothing : Runner → Text → (Text → Bool) → Text × Bool → Type 0
HidesNothing run cwd managed (dir, scoped) =
    ((scoped && leads_down (scope_of cwd dir)) ≡ false)
    ⊎ ((out : Text) × (git_run_raw run (ignored_command (scope_of cwd dir)) ≡ ok out)
        × All (λ path. managed path ≡ true) (split_nul out))

append-nil_elim : {A : Type 0} (xs ys : List A) → xs ++ ys ≡ [] → (xs ≡ []) × (ys ≡ [])
append-nil_elim [] ys h = (refl, h)
append-nil_elim (x ∷ xs) ys h = cc

ignored_files-HidesNothing :
    (run : Runner) (cwd : Text) (managed : Text → Bool) (dirs : List (Text × Bool))
    → ignored_files run cwd managed dirs ≡ ok []
    → All (HidesNothing run cwd managed) dirs
unfolding ignored_files
ignored_files-HidesNothing run cwd managed [] h = tt
ignored_files-HidesNothing run cwd managed ((dir, scoped) ∷ dirs) h =
    let rest = ignored_files run cwd managed dirs in
    elim (Bool-cases (scoped && leads_down (scope_of cwd dir))) [
      | inr e ↦ (inl e, ignored_files-HidesNothing run cwd managed dirs (rw e at h))
      | inl e ↦
          let (out, asked, k) =
            bind-eq-ok (git_run_raw run (ignored_command (scope_of cwd dir)))
              (λ out. rest >>= λ found. ok (unmanaged managed (split_nul out) ++ found)) {b = []}
              (rw e at h) in
          let (found, later, joined) =
            bind-eq-ok rest (λ found. ok (unmanaged managed (split_nul out) ++ found)) {b = []} k in
          let (none_here, none_later) = append-nil_elim _ _ (ok-injective joined) in
          (
            inr (out, asked, unmanaged-All managed (split_nul out) none_here),
            ignored_files-HidesNothing run cwd managed dirs (later ∙ ap ok none_later),
          )
    ]

verdict_ok : (lines : List Text) → verdict lines ≡ ok tt → lines ≡ []
unfolding verdict
verdict_ok [] h = refl
verdict_ok (line ∷ lines) h = cc

-- EnsureCleanWorkingTreeWithEnv accepts a tree only if each record of `git status` has managed
-- paths alone, a rename or a copy both its destination and its source, and each managed directory
-- below the root holds no ignored file but managed ones.
pub ensure_clean_working_tree-IsCovered :
    (run : Runner) (cwd : Text) (managed : List (Text × Bool))
    → ensure_clean_working_tree run cwd managed ≡ ok tt
    → let exempt = is_exempt cwd (exempt_paths cwd managed) in
      (out : Text) × (git_run_raw run status_command ≡ ok out)
      × IsCovered exempt (split_nul out)
      × All (HidesNothing run cwd exempt) managed
ensure_clean_working_tree-IsCovered run cwd managed h =
    let exempt = is_exempt cwd (exempt_paths cwd managed) in
    let (out, asked, h1) =
      bind-eq-ok (git_run_raw run status_command) (judge run cwd exempt managed) {b = tt}
        (unfold ensure_clean_working_tree in h) in
    let (changes, read, h2) =
      bind-eq-ok (unexpected_changes exempt (split_nul out)) (judge_ignored run cwd exempt managed)
        {b = tt} h1 in
    let (ignored, listed, h3) =
      bind-eq-ok (ignored_files run cwd exempt managed) (λ ignored. verdict (changes ++ ignored))
        {b = tt} h2 in
    let (none_changed, none_ignored) = append-nil_elim _ _ (verdict_ok (changes ++ ignored) h3) in
    (
      out,
      asked,
      unexpected_changes-IsCovered exempt (split_nul out) (read ∙ ap ok none_changed),
      ignored_files-HidesNothing run cwd exempt managed (listed ∙ ap ok none_ignored),
    )
