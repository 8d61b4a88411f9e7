-- ===== src/Semver/Highest.antt =====
-- Highest and Min of internal/semver/semver.go against the maximum of ranks.
use Prim.Native.Nat.{max}
use hooversion.Common.{ℕ, ◌≡◌, ◌≤◌, ◌⊎◌, inl, inr, refl, true, List, [], ◌∷◌, arith}
use hooversion.Semver.{is_bump, raise_minor, raise_patch, highest_from, highest}
use hooversion.Types.{ReleaseType, major, minor, patch, no_release, unset, other}

abbrev pub rank : ReleaseType → ℕ
rank major = 3
rank minor = 2
rank patch = 1
rank _ = 0

abbrev pub highest_rank : List ReleaseType → ℕ
highest_rank [] = 0
highest_rank (t ∷ ts) = max (rank t) (highest_rank ts)

-- One of the three bumps, or "".
abbrev pub IsOutcome : ReleaseType → Type 0
IsOutcome t = (is_bump t ≡ true) ⊎ (t ≡ unset)

highest_rank-le : (ts : List ReleaseType) → highest_rank ts ≤ 3
highest_rank-le [] = omega arith
highest_rank-le (major ∷ ts) = omega (arith, highest_rank-le ts)
highest_rank-le (minor ∷ ts) = omega (arith, highest_rank-le ts)
highest_rank-le (patch ∷ ts) = omega (arith, highest_rank-le ts)
highest_rank-le (_ ∷ ts) = omega (arith, highest_rank-le ts)

highest_from-rank :
    (r : ReleaseType) (ts : List ReleaseType)
    → IsOutcome r
    → (rank (highest_from r ts) ≡ max (rank r) (highest_rank ts)) × IsOutcome (highest_from r ts)
unfolding highest_from
highest_from-rank r [] h = (omega arith, h)
highest_from-rank r (major ∷ ts) h = (ground (arith, highest_rank-le ts), inl refl)
highest_from-rank r (minor ∷ ts) h = ground (arith, highest_from-rank (raise_minor r) ts)
highest_from-rank r (patch ∷ ts) h = ground (arith, highest_from-rank (raise_patch r) ts)
highest_from-rank r (no_release ∷ ts) h = ground (arith, highest_from-rank r ts)
highest_from-rank r (unset ∷ ts) h = ground (arith, highest_from-rank r ts)
highest_from-rank r (other s ∷ ts) h = ground (arith, highest_from-rank r ts)

-- Highest returns a bump or "", and its rank is the greatest rank in the list, where major, minor
-- and patch rank 3, 2 and 1, and every other string ranks 0.
pub highest-rank :
    (ts : List ReleaseType) → (rank (highest ts) ≡ highest_rank ts) × IsOutcome (highest ts)
unfolding highest
highest-rank ts = ground (arith, highest_from-rank unset ts (inr refl))

-- Types of equal rank among the outcomes are equal.
pub rank_injective : (s t : ReleaseType) → IsOutcome s → IsOutcome t → rank s ≡ rank t → s ≡ t
rank_injective s t hs ht e = ground arith
