-- ===== src/Tool/RoundTrip.antt =====
-- tool/fqn.go: parsing and printing of full names and package versions.
use toolbox.Prelude.{
  ℕ, true, false, ◌∷◌, ◌++◌, arith, ◌==◌, inl, inr, All, All-append, all-All, All-map, ◌≡◌, ◌↔◌,
  refl, ap, subst, ◌∙◌, ok, ok_injective, >>=-ok, Option-cases,
}
use toolbox.Prelude.Text.{Text, Without}
use toolbox.Tool.Pattern.{is_dotted_byte, pseudo_prefix, pseudo_pattern, is_digit, is_lower_hex}
use toolbox.Tool.Pieces.{VersionByte, cut_at-append, cut_at-eq-some, semver-Version}
use toolbox.Tool.Pseudo.{Groups, pseudo_pattern-eq-some}
use toolbox.Tool.Fqn.{
  ParseError, missing_at, missing_tool_path, ToolFqn, PackageVer, parse_module_path, parse_version,
  parse_tool_path, cut_or, parse_tool_fqn, parse_package_ver, tool_fqn_string, package_ver_string,
}

-- The parsers of the parts return the text that they are given.
parse_module_path-eq-ok : (s m : Text) → parse_module_path s ≡ ok m → m ≡ s
unfolding parse_module_path
parse_module_path-eq-ok s m h = ground arith

parse_version-eq-ok : (s v : Text) → parse_version s ≡ ok v → v ≡ s
unfolding parse_version
parse_version-eq-ok s v h = ground arith

parse_tool_path-eq-ok : (s t : Text) → parse_tool_path s ≡ ok t → t ≡ s
unfolding parse_tool_path
parse_tool_path-eq-ok s t h = ground arith

-- A name whose parts parse. `ParseModulePath` lets `@` pass, so that it is absent is stated.
pub record IsToolFqn (f : ToolFqn) : Type 0 where
  pub path_parses : parse_module_path f.module_path ≡ ok f.module_path
  pub path_bytes : Without b'@' f.module_path
  pub version_parses : parse_version f.version ≡ ok f.version
  pub tool_parses : parse_tool_path f.tool ≡ ok f.tool

pub record IsPackageVer (p : PackageVer) : Type 0 where
  pub path_parses : parse_module_path p.module_path ≡ ok p.module_path
  pub path_bytes : Without b'@' p.module_path
  pub version_parses : parse_version p.version ≡ ok p.version

cut_or-eq-ok :
    (b : ℕ) (s : Text) (e : ParseError) (l r : Text)
    → cut_or b s e ≡ ok (l, r)
    → (s ≡ l ++ (b ∷ r)) × Without b l
unfolding cut_or
cut_or-eq-ok b s e l r h = cut_at-eq-some b s l r (ground arith)

cut_or-append :
    (b : ℕ) (l r : Text) (e : ParseError) → Without b l → cut_or b (l ++ (b ∷ r)) e ≡ ok (l, r)
unfolding cut_or
cut_or-append b l r e h = rw (cut_at-append b l r h, cut_or)

package_made :
    (s l r path version : Text)
    → cut_or b'@' s (missing_at s) ≡ ok (l, r)
    → parse_module_path l ≡ ok path
    → parse_version r ≡ ok version
    → let p : PackageVer = record { module_path = path; version = version } in
      IsPackageVer p × (s ≡ package_ver_string p)
unfolding package_ver_string
package_made s l r path version cut e1 e2 =
    let (shape, bytes) = cut_or-eq-ok b'@' s (missing_at s) l r cut in
    let p1 = parse_module_path-eq-ok l path e1 in
    let p2 = parse_version-eq-ok r version e2 in
    (
      record {
        path_parses = rw p1 (e1 ∙ ap ok p1);
        path_bytes = rw p1 bytes;
        version_parses = rw p2 (e2 ∙ ap ok p2);
      },
      rw (p1, p2) shape,
    )

package_parsed :
    (s : Text) (p : PackageVer)
    → parse_package_ver s ≡ ok p
    → IsPackageVer p × (s ≡ package_ver_string p)
unfolding parse_package_ver
package_parsed s p h =
    let ((l, r), cut, h0) = >>=-ok (cut_or b'@' s (missing_at s)) _ h in
    let (path, e1, h1) = >>=-ok (parse_module_path l) _ h0 in
    let (version, e2, h2) = >>=-ok (parse_version r) _ h1 in
    subst (λ q. IsPackageVer q × (s ≡ package_ver_string q)) (ok_injective h2)
      (package_made s l r path version cut e1 e2)

package_printed :
    (p : PackageVer) → IsPackageVer p → parse_package_ver (package_ver_string p) ≡ ok p
unfolding parse_package_ver package_ver_string
package_printed p v =
    rw (cut_or-append b'@' p.module_path p.version (missing_at (package_ver_string p)) v.path_bytes)
      (rw (v.path_parses, v.version_parses))

-- A text parses to the package version `p` exactly when it is the text of `p`, the parts of `p` parse,
-- and no `@` stands in its module path.
pub parse_package_ver_iff :
    (s : Text) (p : PackageVer)
    → (parse_package_ver s ≡ ok p) ↔ (IsPackageVer p × (s ≡ package_ver_string p))
parse_package_ver_iff s p = (package_parsed s p, λ (v, shape). rw shape (package_printed p v))

digit-Version : (c : ℕ) → is_digit c ≡ true → VersionByte c
unfolding is_dotted_byte
digit-Version c h = ground arith

hex-Version : (c : ℕ) → is_lower_hex c ≡ true → VersionByte c
unfolding is_dotted_byte is_lower_hex
hex-Version c h = ground arith

pseudo-Version :
    (stamp commit : Text)
    → Groups stamp commit
    → All VersionByte (pseudo_prefix ++ (stamp ++ (b'-' ∷ commit)))
unfolding is_dotted_byte
pseudo-Version stamp commit g =
    All-append VersionByte pseudo_prefix _
      (refl, (refl, (refl, (refl, (refl, (refl, (refl, tt)))))))
      (All-append VersionByte stamp _
        (all-All VersionByte is_digit stamp digit-Version g.stamp_digits)
        (refl, all-All VersionByte is_lower_hex commit hex-Version g.commit_hex))

parse_version-Version : (v : Text) → parse_version v ≡ ok v → All VersionByte v
unfolding parse_version
parse_version-Version v h = elim (Option-cases (pseudo_pattern v)) [
  | inl e ↦ semver-Version v (ground arith)
  | inr ((stamp, commit), e) ↦
      let (shape, g) = pseudo_pattern-eq-some v stamp commit e in
      rw shape (pseudo-Version stamp commit g)
]

slash_free : (c : ℕ) → VersionByte c → (c == b'/') ≡ false
unfolding is_dotted_byte
slash_free c h = ground arith

-- The bytes of a version let the slash after it be found.
parse_version-Without : (v : Text) → parse_version v ≡ ok v → Without b'/' v
parse_version-Without v h =
    All-map VersionByte (λ c. (c == b'/') ≡ false) v slash_free (parse_version-Version v h)

fqn_made :
    (s l r m t path version tool : Text)
    → cut_or b'@' s (missing_at s) ≡ ok (l, r)
    → cut_or b'/' r (missing_tool_path s) ≡ ok (m, t)
    → parse_module_path l ≡ ok path
    → parse_version m ≡ ok version
    → parse_tool_path t ≡ ok tool
    → let f : ToolFqn = record { module_path = path; version = version; tool = tool } in
      IsToolFqn f × (s ≡ tool_fqn_string f)
unfolding tool_fqn_string
fqn_made s l r m t path version tool cut cut' e1 e2 e3 =
    let (shape, bytes) = cut_or-eq-ok b'@' s (missing_at s) l r cut in
    let (shape', _) = cut_or-eq-ok b'/' r (missing_tool_path s) m t cut' in
    let p1 = parse_module_path-eq-ok l path e1 in
    let p2 = parse_version-eq-ok m version e2 in
    let p3 = parse_tool_path-eq-ok t tool e3 in
    (
      record {
        path_parses = rw p1 (e1 ∙ ap ok p1);
        path_bytes = rw p1 bytes;
        version_parses = rw p2 (e2 ∙ ap ok p2);
        tool_parses = rw p3 (e3 ∙ ap ok p3);
      },
      rw (p1, p2, p3) (shape ∙ ap (λ x. l ++ (b'@' ∷ x)) shape'),
    )

fqn_parsed :
    (s : Text) (f : ToolFqn) → parse_tool_fqn s ≡ ok f → IsToolFqn f × (s ≡ tool_fqn_string f)
unfolding parse_tool_fqn
fqn_parsed s f h =
    let ((l, r), cut, h0) = >>=-ok (cut_or b'@' s (missing_at s)) _ h in
    let ((m, t), cut', h1) = >>=-ok (cut_or b'/' r (missing_tool_path s)) _ h0 in
    let (path, e1, h2) = >>=-ok (parse_module_path l) _ h1 in
    let (version, e2, h3) = >>=-ok (parse_version m) _ h2 in
    let (tool, e3, h4) = >>=-ok (parse_tool_path t) _ h3 in
    subst (λ g. IsToolFqn g × (s ≡ tool_fqn_string g)) (ok_injective h4)
      (fqn_made s l r m t path version tool cut cut' e1 e2 e3)

fqn_printed : (f : ToolFqn) → IsToolFqn f → parse_tool_fqn (tool_fqn_string f) ≡ ok f
unfolding parse_tool_fqn tool_fqn_string
fqn_printed f v =
    let rest : Text = f.version ++ (b'/' ∷ f.tool) in
    let bytes = parse_version-Without f.version v.version_parses in
    rw (cut_or-append b'@' f.module_path rest (missing_at (tool_fqn_string f)) v.path_bytes) (
      rw (cut_or-append b'/' f.version f.tool (missing_tool_path (tool_fqn_string f)) bytes)
        (rw (v.path_parses, v.version_parses, v.tool_parses)))

-- A text parses to the name `f` exactly when it is the text of `f`, the parts of `f` parse, and
-- no `@` stands in its module path.
pub parse_tool_fqn_iff :
    (s : Text) (f : ToolFqn) → (parse_tool_fqn s ≡ ok f) ↔ (IsToolFqn f × (s ≡ tool_fqn_string f))
parse_tool_fqn_iff s f = (fqn_parsed s f, λ (v, shape). rw shape (fqn_printed f v))
