-- ===== src/Versions/Swap/All.antt =====
-- What every comparator that `comparator_for` of analyzer/src/analyzer/detect/versioning.py picks has in
-- common.
use kcatta.Prelude.{
  ◌≡◌, refl, sym, ap, ◌∙◌, Bool, true, false, some, Text, if◌then◌else◌, eq_of_some,
}
use kcatta.Versions.Compare.{Comparison, same, older, newer, flip}
use kcatta.Versions.Semver.{Packaging}
use kcatta.Versions.Totals.{
  IsPlain, dpkg_compare-Ends, pep440_compare-Ends, rpm_compare-Ends, semver_compare-Ends,
}
use kcatta.Versions.Totals.Apk.{apk_compare-Ends}
use kcatta.Versions.Choice.{Comparator, comparator_for}
use kcatta.Versions.Swap.{flipped, dpkg_compare-swap}
use kcatta.Versions.Swap.Language.{
  IsAsymmetric, semver_compare-swap, pep440_compare-swap, apk_compare-swap,
}
use kcatta.Versions.Swap.Rounds.{rpm_compare-swap}

-- Over plain versions.
abbrev IsTotal : Comparator → Type 0
IsTotal f = (a b : Text) → IsPlain a → IsPlain b → (c : Comparison) × (f a b ≡ some c)

abbrev Swaps : Comparator → Type 0
Swaps f = (a b : Text) → f b a ≡ flipped (f a b)

either :
    (P : Comparator → Type 0) (b : Bool) (f g : Comparator) → P f → P g → P (if b then f else g)
either P true f g s t = s
either P false f g s t = t

-- Whatever the ecosystem, the comparator picked for it ends with a result, and without an exception, on
-- every two versions in ASCII of at most 4300 characters.
pub comparator_for-total :
    (p : Packaging) (ecosystem a b : Text)
    → IsPlain a
    → IsPlain b
    → (c : Comparison) × (comparator_for p ecosystem a b ≡ some c)
unfolding comparator_for
comparator_for-total p ecosystem a b h k =
    either IsTotal _ _ _ (λ a b h k. dpkg_compare-Ends a b h.1 k.1)
      (either IsTotal _ _ _ (λ a b h k. pep440_compare-Ends p a b h.1 k.1)
        (either IsTotal _ _ _ (λ a b h k. rpm_compare-Ends a b h.1 k.1)
          (either IsTotal _ _ _ (λ a b h k. apk_compare-Ends a b h.1 k.1)
            (λ a b h k. semver_compare-Ends a b h.1 k.1))))
      a b h k

pub comparator_for-swap :
    (p : Packaging)
    → IsAsymmetric p
    → (ecosystem a b : Text)
    → comparator_for p ecosystem b a ≡ flipped (comparator_for p ecosystem a b)
unfolding comparator_for
comparator_for-swap p asym ecosystem = either Swaps _ _ _ dpkg_compare-swap (
    either Swaps _ _ _ (pep440_compare-swap p asym) (
      either Swaps _ _ _ rpm_compare-swap
        (either Swaps _ _ _ apk_compare-swap semver_compare-swap)))

only_same : (c : Comparison) → flip c ≡ c → c ≡ same
unfolding flip
only_same older h = absurd (cc)
only_same same h = refl
only_same newer h = absurd (cc)

-- Every comparator finds a version in ASCII of at most 4300 characters the same as itself, if the order
-- of `packaging` is asymmetric.
pub comparator_for_refl :
    (p : Packaging)
    → IsAsymmetric p
    → (ecosystem a : Text) → IsPlain a
    → comparator_for p ecosystem a a ≡ some same
comparator_for_refl p asym ecosystem a plain =
    let (c, e) = comparator_for-total p ecosystem a a plain plain in
    let turned : some c ≡ some (flip c) =
      sym e ∙ (comparator_for-swap p asym ecosystem a a ∙ ap flipped e) in
    e ∙ ap some (only_same c (sym (eq_of_some turned)))
