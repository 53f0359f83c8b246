-- ===== src/Tests/ToolNames.antt =====
-- Runs and instances for tool/fqn.go.
use toolbox.Prelude.{◌≡◌, ◌↔◌, refl, true, ◌++◌, ◌∷◌, ok, err}
use toolbox.Prelude.Text.{Text, codes, has_prefix, contains, split_on}
use toolbox.Tool.Pattern.{
  pseudo_prefix, is_digit, is_lower_hex, pseudo_pattern, semver_pattern, tool_path_pattern,
}
use toolbox.Tool.Fqn.{
  ToolFqn, PackageVer, parse_module_path, parse_version, parse_tool_path, parse_tool_fqn,
  parse_package_ver, tool_fqn_string, package_ver_string, is_pseudo, pseudo_timestamp,
  pseudo_commit, module_short, host_without_dot, empty_segment, invalid_pseudo, invalid_version,
}
use toolbox.Tool.Pseudo.{Groups, is_pseudo_iff, pseudo_getters}
use toolbox.Tool.RoundTrip.{IsToolFqn, IsPackageVer, parse_tool_fqn_iff, parse_package_ver_iff}

abbrev calc_fqn : ToolFqn
calc_fqn = record {
  module_path = codes "github.com/acme/tools";
  version = codes "v1.2.0-rc.1+b7";
  tool = codes "calc.add";
}

abbrev calc_text : Text
calc_text = codes "github.com/acme/tools@v1.2.0-rc.1+b7/calc.add"

parses_fqn : parse_tool_fqn calc_text ≡ ok calc_fqn
unfolding parse_tool_fqn parse_module_path parse_version parse_tool_path semver_pattern
    pseudo_pattern tool_path_pattern split_on contains has_prefix
parses_fqn = refl

abbrev old_version : Text
old_version = codes "v0.0.0-20240102030405-0123456789ab"

rejects_versions :
    (parse_version (codes "v1.2") ≡ err (invalid_version (codes "v1.2")))
    × (parse_version (codes "v1.2.0-") ≡ err (invalid_version (codes "v1.2.0-")))
    × (parse_version (codes "v0.0.0-2024") ≡ err (invalid_pseudo (codes "v0.0.0-2024")))
unfolding parse_version semver_pattern pseudo_pattern has_prefix
rejects_versions = (refl, refl, refl)

rejects_modules :
    (parse_module_path (codes "github.com") ≡ err (module_short (codes "github.com")))
    × (parse_module_path (codes "acme/tools")
        ≡ err (host_without_dot (codes "acme/tools") (codes "acme")))
    × (parse_module_path (codes "a.b//c") ≡ err (empty_segment (codes "a.b//c")))
unfolding parse_module_path split_on contains has_prefix
rejects_modules = (refl, refl, refl)

parse_tool_fqn_iff_example :
    (parse_tool_fqn calc_text ≡ ok calc_fqn)
    ↔ (IsToolFqn calc_fqn × (calc_text ≡ tool_fqn_string calc_fqn))
parse_tool_fqn_iff_example = parse_tool_fqn_iff calc_text calc_fqn

abbrev tools_package : PackageVer
tools_package = record { module_path = codes "github.com/acme/tools"; version = old_version }

abbrev package_text : Text
package_text = codes "github.com/acme/tools@v0.0.0-20240102030405-0123456789ab"

parses_package : parse_package_ver package_text ≡ ok tools_package
unfolding parse_package_ver parse_module_path parse_version semver_pattern pseudo_pattern split_on
    contains has_prefix
parses_package = refl

parse_package_ver_iff_example :
    (parse_package_ver package_text ≡ ok tools_package)
    ↔ (IsPackageVer tools_package × (package_text ≡ package_ver_string tools_package))
parse_package_ver_iff_example = parse_package_ver_iff package_text tools_package

is_pseudo_iff_example : (is_pseudo old_version ≡ true) ↔ (
    (stamp : Text) × (commit : Text) × (old_version ≡ pseudo_prefix ++ (stamp ++ (b'-' ∷ commit)))
    × Groups stamp commit)
is_pseudo_iff_example = is_pseudo_iff old_version

abbrev stamp : Text
stamp = codes "20240102030405"

abbrev commit : Text
commit = codes "0123456789ab"

stamp-Groups : Groups stamp commit
unfolding is_digit is_lower_hex
stamp-Groups = record {
  stamp_digits = refl;
  stamp_length = refl;
  commit_hex = refl;
  commit_length = refl;
}

pseudo_getters_example :
    (pseudo_timestamp old_version ≡ stamp)
    × (pseudo_commit old_version ≡ commit)
    × (parse_version old_version ≡ ok old_version)
pseudo_getters_example = pseudo_getters stamp commit stamp-Groups
