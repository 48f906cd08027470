-- ===== src/Versions/Tests.antt =====
-- The comparators of analyzer/src/analyzer/detect at concrete versions.
use kcatta.Prelude.{ℕ, zero, suc, ◌≡◌, refl, none, some, [], ◌∷◌, Text, codes, arith, ltb}
use kcatta.Versions.Compare.{Comparison, older, same, newer}
use kcatta.Versions.Debian.{dpkg_compare}
use kcatta.Versions.Semver.{Packaging, semver_compare}
use kcatta.Versions.Rpm.{rpm_compare}
use kcatta.Versions.Apk.{apk_compare}
use kcatta.Versions.Choice.{comparator_for}
use kcatta.Versions.Swap.Language.{IsAsymmetric}
use kcatta.Versions.Swap.All.{comparator_for-total, comparator_for_refl}

debian_tilde : dpkg_compare (codes "1:1.0~rc1-2") (codes "1:1.0-1") ≡ some older
unfolding dpkg_compare
debian_tilde = refl

semver_prerelease : semver_compare (codes "v1.2.0-alpha.2") (codes "1.2-alpha.10") ≡ some older
unfolding semver_compare
semver_prerelease = refl

rpm_caret : rpm_compare (codes "1.0^git1") (codes "1.0") ≡ some newer
unfolding rpm_compare
rpm_caret = refl

apk_suffix : apk_compare (codes "1.2_rc1-r0") (codes "1.2-r1") ≡ some older
unfolding apk_compare
apk_suffix = refl

-- `int` raises on a release number of 4301 digits, also where a version is compared with itself.
abbrev nines : ℕ → Text
nines zero = []
nines (suc n) = 57 ∷ nines n

too_long : semver_compare (nines 4301) (nines 4301) ≡ none
unfolding semver_compare
too_long = refl

-- A stand-in for the package: versions are the lengths of their texts.
abbrev packaging : Packaging
packaging = record { Version = ℕ; parse = λ t. some 1; less = ltb }

asymmetric : IsAsymmetric packaging
asymmetric v w h = ground arith

comparator_for-total_example :
    (c : Comparison) × (comparator_for packaging
        (codes "Rocky Linux:9")
        (codes "2.4.1-3.el9")
        (codes "2.10-1.el9")
      ≡ some c)
comparator_for-total_example =
    comparator_for-total packaging (codes "Rocky Linux:9") (codes "2.4.1-3.el9")
      (codes "2.10-1.el9") (refl, omega arith) (refl, omega arith)

comparator_for_refl_example :
    comparator_for packaging (codes "Alpine:v3.19") (codes "1.05_p2-r1") (codes "1.05_p2-r1")
    ≡ some same
comparator_for_refl_example =
    comparator_for_refl packaging asymmetric (codes "Alpine:v3.19") (codes "1.05_p2-r1")
      (refl, omega arith)
