-- ===== src/Routing/Ownership.antt =====
-- Which package owns a file, in internal/routing/routing.go.
use hooversion.Common.{◌≡◌, ◌≢◌, ◌↔◌, true, false, List, [], ◌++◌}
use hooversion.Routing.{is_inside}
use hooversion.Text.Paths.{clean, rel, leads_down-rel_iff, IsPlain}
use hooversion.Text.{Text}

-- For a file and a package whose cleaned paths are relative and have no "..", the file is inside
-- the package exactly if its path goes on from the path of the package by at least one element.
pub is_inside_iff :
    (file package_path : Text)
    → (clean file).rooted ≡ false
    → (clean package_path).rooted ≡ false
    → IsPlain (clean file).elements
    → IsPlain (clean package_path).elements
    → (is_inside file package_path ≡ true) ↔ (
        (rest : List Text) × (rest ≢ [])
        × ((clean file).elements ≡ (clean package_path).elements ++ rest))
unfolding is_inside rel
is_inside_iff file package_path rf rp hf hp =
    rw (rp, rf) (leads_down-rel_iff (clean package_path).elements (clean file).elements hp hf)
