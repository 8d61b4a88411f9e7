-- ===== src/Semver/Bump.antt =====
-- The guarded bump of internal/semver/semver.go: what it returns, and when it refuses.
use hooversion.Common.{ℕ, Bool, ◌&&◌, leb, Result, ◌+◌, ◌≡◌, [], arith, ltb, if◌then◌else◌, ok, err}
use hooversion.Semver.{
  SemVer, bump_range, max_int, Error, invalid_version, invalid_release_type, checked_bump,
}
use hooversion.Types.{ReleaseType, major, minor, patch, no_release, unset, other}

-- The next version over unbounded numbers.
abbrev pub successor : SemVer → ReleaseType → SemVer
successor v major = record {
  core_major = v.core_major + 1;
  core_minor = 0;
  core_patch = 0;
  pre = [];
  build = [];
}
successor v minor = record {
  core_major = v.core_major;
  core_minor = v.core_minor + 1;
  core_patch = 0;
  pre = [];
  build = [];
}
successor v _ = record {
  core_major = v.core_major;
  core_minor = v.core_minor;
  core_patch = v.core_patch + 1;
  pre = [];
  build = [];
}

-- Every component of the version is one that an int holds.
abbrev pub fits : SemVer → Bool
fits v = leb v.core_major max_int && leb v.core_minor max_int && leb v.core_patch max_int

abbrev within_int : ℕ → SemVer → Result Error SemVer
within_int raised v = if ltb raised max_int then ok v else err bump_range

-- The next version, or why there is none.
abbrev pub bumped : SemVer → ReleaseType → Result Error SemVer
bumped v major = within_int v.core_major (successor v major)
bumped v minor = within_int v.core_minor (successor v minor)
bumped v patch = within_int v.core_patch (successor v patch)
bumped v no_release = err invalid_release_type
bumped v unset = err invalid_release_type
bumped v (other s) = err invalid_release_type

-- CheckedBump refuses a version with a component that no nonnegative int is. For any other version
-- it refuses a release type other than major, minor and patch, returns the next version over
-- unbounded numbers if the raised component is below the largest int, and reports an overflow if
-- it is the largest int.
pub checked_bump-successor :
    (v : SemVer) (t : ReleaseType)
    → checked_bump v t ≡ (if fits v then bumped v t else err invalid_version)
unfolding checked_bump
checked_bump-successor v major = ground arith
checked_bump-successor v minor = ground arith
checked_bump-successor v patch = ground arith
checked_bump-successor v no_release = ground arith
checked_bump-successor v unset = ground arith
checked_bump-successor v (other s) = ground arith
