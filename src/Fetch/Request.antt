-- ===== src/Fetch/Request.antt =====
-- fetch/request.go: the method of a request.
use toolbox.Prelude.{ℕ, ◌-◌, List, [], ◌∷◌, ◌&&◌, leb, any, if◌then◌else◌}
use toolbox.Prelude.Text.{Text, codes, text_eq}

abbrev pub upper_byte : ℕ → ℕ
upper_byte c = if leb b'a' c && leb c b'z' then c - 32 else c

-- strings.ToUpper on ASCII text.
unfoldable pub to_upper : Text → Text
to_upper [] = []
to_upper (c ∷ s) = upper_byte c ∷ to_upper s

abbrev pub standard_methods : List Text
standard_methods =
    codes "DELETE" ∷ codes "GET" ∷ codes "HEAD" ∷ codes "OPTIONS" ∷ codes "POST" ∷ codes "PUT" ∷ []

-- normalizeMethod
unfoldable pub normalize_method : Text → Text
unfolding to_upper text_eq
normalize_method m =
    let upper = to_upper m in if any (text_eq upper) standard_methods then upper else m
