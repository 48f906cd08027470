-- ===== src/Versions/Choice.antt =====
-- `comparator_for` of analyzer/src/analyzer/detect/versioning.py.
use kcatta.Prelude.{
  Option, List, [], ◌∷◌, Text, codes, text_in, strip, lower, partition, if◌then◌else◌,
}
use kcatta.Versions.Compare.{Comparison}
use kcatta.Versions.Debian.{dpkg_compare}
use kcatta.Versions.Semver.{Packaging, semver_compare, pep440_compare}
use kcatta.Versions.Rpm.{rpm_compare}
use kcatta.Versions.Apk.{apk_compare}

abbrev dpkg_ecosystems : List Text
dpkg_ecosystems = codes "debian" ∷ codes "ubuntu" ∷ []

abbrev pep440_ecosystems : List Text
pep440_ecosystems = codes "pypi" ∷ []

abbrev rpm_ecosystems : List Text
rpm_ecosystems =
    codes "rocky linux"
    ∷ codes "almalinux"
    ∷ codes "alma linux"
    ∷ codes "red hat"
    ∷ codes "centos"
    ∷ codes "oracle linux"
    ∷ codes "opensuse"
    ∷ codes "suse"
    ∷ codes "mageia"
    ∷ []

abbrev apk_ecosystems : List Text
apk_ecosystems = codes "alpine" ∷ codes "chainguard" ∷ codes "wolfi" ∷ []

-- A comparator answers none where it raises ValueError, or where a loop would not end.
abbrev pub Comparator : Type 0
Comparator = Text → Text → Option Comparison

abbrev pub base_name : Text → Text
base_name ecosystem = lower (strip (partition 58 ecosystem).0)

unfoldable pub comparator_for : Packaging → Text → Comparator
unfolding text_in lower strip partition
comparator_for p ecosystem =
    let base = base_name ecosystem in
    if text_in base dpkg_ecosystems
    then dpkg_compare
    else if text_in base pep440_ecosystems
    then pep440_compare p
    else if text_in base rpm_ecosystems
    then rpm_compare
    else if text_in base apk_ecosystems
    then apk_compare
    else semver_compare
