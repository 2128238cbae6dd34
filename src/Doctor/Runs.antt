-- ===== src/Doctor/Runs.antt =====
-- Concrete versions for the checks of cmd/doctor.go.
use xll_gen.Prelude.{◌≡◌, refl, [], ◌∷◌, pos, negsuc}
use xll_gen.Doctor.{compare_versions}
use xll_gen.Doctor.Order.{Compares, compare_versions-Compares}

compare_versions-Compares_example :
    Compares (3 ∷ 9 ∷ []) (3 ∷ 24 ∷ 1 ∷ []) (compare_versions (3 ∷ 9 ∷ []) (3 ∷ 24 ∷ 1 ∷ []))
compare_versions-Compares_example = compare_versions-Compares (3 ∷ 9 ∷ []) (3 ∷ 24 ∷ 1 ∷ [])

older : compare_versions (3 ∷ 9 ∷ []) (3 ∷ 24 ∷ 1 ∷ []) ≡ negsuc 0
unfolding compare_versions
older = refl

same : compare_versions (3 ∷ 24 ∷ []) (3 ∷ 24 ∷ 0 ∷ []) ≡ pos 0
unfolding compare_versions
same = refl
