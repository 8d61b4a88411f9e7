-- ===== src/Lib.antt =====
-- A model of Hooversion, which plans and publishes releases from conventional commits, in the parts
-- that decide: what version follows, which commits count for which package, what a release plan is,
-- and which webhook deliveries are taken up.
--
-- A plan is made as follows. `git` reads the commits since the latest tag of each package,
-- `commit` parses their headers, `routing` assigns them to packages by scope and by touched files,
-- `plan` derives the release types, blocks on commits that no package takes, passes patch bumps on
-- to dependents, and builds the releases with `semver`, the tag format and the notes of
-- `changelog`. The webhook service filters workflow runs and reserves a delivery in its deduper
-- before it runs a release, and a delivery that waits is a file in its spool. `config` makes sure
-- that the packages have different names and paths and no cycles.
--
-- `release` carries a plan out: it checks the plan and the tree, writes a journal with a snapshot,
-- changes the versions and the changelogs, commits, tags, pushes and publishes, and resumes or rolls
-- back what was interrupted.
--
-- Files and the code that they model:
--   Common            shared helpers: native numbers, lists, results that may fail
--   Text              Go strings as lists of code points, package strings, maps with text keys, the
--                     functions of package path/filepath that routing uses
--   Types             internal/types/types.go
--   Semver            internal/semver/semver.go
--   Commit            internal/commit/commit.go
--   Routing           internal/routing/routing.go
--   Git               internal/git/git.go: AssertValidGitRef, LatestTagWithEnv, HeadShaWithEnv,
--                     RefShaWithEnv, CommitMessageWithEnv; Git/Log: CommitsWithEnv with its parsers;
--                     Git/Remote: the remote refs, the branch and files of a revision;
--                     Git/WorkingTree: EnsureCleanWorkingTreeWithEnv
--   Envutil           internal/envutil/env.go
--   Release           internal/release: Release/Message: CommitMessage and releaseMessageMatches;
--                     Release/Resume: resume.go; Release/Checks: ValidateWithEnv;
--                     Release/Effects: what a run changes and reads; Release/Journals,
--                     Release/Recovery: transaction.go; Release/Publishing:
--                     publishGitHubReleasesWithEnv; Release/Stages, Release/Execute: Execute;
--                     Release/Publication, Release/Triples: the rule of the journal and its proof
--   Changelog         internal/changelog/changelog.go, less the access to the file
--   Plan              internal/plan/plan.go: helpers, buildRelease; Plan/Independent:
--                     createIndependentPlan; Plan/Create: CreatePlanWithEnv
--   App/Dedupe        internal/app/dedupe.go
--   App/Filter        internal/app/filter.go: ShouldHandleWorkflowRun, isReleaseCommit and the keys
--   App/Queue         internal/app/queue.go: NewReleaseTaskQueue, runWithRetry, queueRepository;
--                     App/Queue/Chains: Enqueue, drain and Cancel as steps in any order
--   Config            internal/config/config.go: the checks of Normalize; Config/Cycles:
--                     assertAcyclicPackageGraph
--
-- A definition has the name of the function that it models, in snake case, and a loop is a helper
-- by recursion on the list that it ranges over. A map is an association list, and a set a list. A
-- machine integer is its 64-bit pattern; the byte counts of the spool are integers, since no size
-- of a directory comes near an overflow. Errors are values with the kind of the failure; their
-- texts are left out. Git is a function from the arguments and the input of a command to its
-- outcome, so one model run stands for one state of the repository; the texts in manifests and the
-- clock are arguments of planning. A release is a function on a state that holds the journal and
-- the trace of the effects so far; what it reads is a function of that trace, the record World, so
-- a hook or another writer may change anything between two effects. A save of the journal that
-- fails is an effect of its own, since the file may be the old one or the new one. A run that is
-- stopped leaves a first part of the trace. The spool is a function on its state, with an oracle
-- that says which calls on its directory fail; a name of the directory that was changed since the
-- last sync may stand for any of its files after a crash, and a file that was not synced may have
-- any content. Regular expressions are functions by clauses. The loop of the propagation runs on
-- fuel: one step more than there are packages, and each step but the last gives a release type to
-- a package that had none. The search for cycles runs on as much: every call but the last marks a
-- name. A task is retried on as much fuel as it has attempts. Admit counts down the sequence
-- numbers that are left.
--
-- Not modelled: the scan of the spool at the start and its drain, other access to files, HTTP,
-- child processes, what the lock of a release keeps out (taking it is an effect), the parsers of
-- configurations, manifests and payloads, the upload and the verification of assets, the command
-- line. The rewriting of manifests and changelogs is an effect of a release with its arguments.
pub mod Common
pub mod Text
pub mod Types
pub mod Semver
pub mod Commit
pub mod Routing
pub mod Git
pub mod Envutil
pub mod Changelog
pub mod Plan
pub mod Config
pub mod App
pub mod Release
