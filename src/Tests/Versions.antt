-- ===== src/Tests/Versions.antt =====
-- Runs and instances for registry/version_list.go.
use Prim.Native.Nat.{Ordering}
use toolbox.Prelude.{◌≡◌, refl}
use toolbox.Prelude.Text.{Text, codes}
use toolbox.Tool.Pattern.{pseudo_pattern, version_core}
use toolbox.Tool.Fqn.{is_pseudo}
use toolbox.Registry.Semver.{
  atoi, parse_semver, strict_tail, compare_semver, compare_prerelease, parse_numeric_identifier,
  compare_parts, compare_versions,
}
use toolbox.Registry.Order.{swap, compare_versions-swap}

prerelease_older : compare_versions (codes "v1.0.0-rc.1") (codes "v1.0.0") ≡ Ordering.lt
unfolding compare_versions is_pseudo pseudo_pattern parse_semver version_core strict_tail atoi
    compare_semver compare_prerelease
prerelease_older = refl

compare_versions-swap_example :
    compare_versions (codes "v1.0.0") (codes "v1.2.0")
    ≡ swap (compare_versions (codes "v1.2.0") (codes "v1.0.0"))
compare_versions-swap_example = compare_versions-swap (codes "v1.2.0") (codes "v1.0.0")

-- The order is no strict weak order: a version equals two others, of which one is newer than the other.
abbrev padded : Text
padded = codes "v1.0.0-01.0"

padded_as_low : compare_versions (codes "v1.0.0-1.2") padded ≡ Ordering.eq
unfolding compare_versions is_pseudo pseudo_pattern parse_semver version_core strict_tail atoi
    compare_semver compare_prerelease compare_parts parse_numeric_identifier
padded_as_low = refl

padded_as_high : compare_versions (codes "v1.0.0-1.3") padded ≡ Ordering.eq
unfolding compare_versions is_pseudo pseudo_pattern parse_semver version_core strict_tail atoi
    compare_semver compare_prerelease compare_parts parse_numeric_identifier
padded_as_high = refl

low_before_high : compare_versions (codes "v1.0.0-1.2") (codes "v1.0.0-1.3") ≡ Ordering.lt
unfolding compare_versions is_pseudo pseudo_pattern parse_semver version_core strict_tail atoi
    compare_semver compare_prerelease compare_parts parse_numeric_identifier
low_before_high = refl
