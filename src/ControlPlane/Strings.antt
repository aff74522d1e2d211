-- ===== src/ControlPlane/Strings.antt =====
-- What apps/control-plane/src uses of JavaScript's strings. A string is the list of its UTF-16
-- units.
use just_postgres.Shared.{ℕ, ◌&&◌, ◌||◌, Bool, [], ◌∷◌, leb, ◌==◌, if◌then◌else◌, is_empty}
use just_postgres.Router.Text.{Text}

-- The white space that JavaScript's `trim` removes.
abbrev pub is_space : ℕ → Bool
is_space c =
    (leb 9 c && leb c 13)
    || (c == 32)
    || (c == 160)
    || (c == 5760)
    || (leb 8192 c && leb c 8202)
    || (c == 8232)
    || (c == 8233)
    || (c == 8239)
    || (c == 8287)
    || (c == 12288)
    || (c == 65279)

unfoldable pub trim_start : Text → Text
trim_start [] = []
trim_start (c ∷ cs) = if is_space c then trim_start cs else c ∷ cs

unfoldable pub trim_end : Text → Text
trim_end [] = []
trim_end (c ∷ cs) = let rest = trim_end cs in if is_space c && is_empty rest then [] else c ∷ rest

abbrev pub trim : Text → Text
trim t = trim_end (trim_start t)

-- `\w`
abbrev pub is_word : ℕ → Bool
is_word c =
    (leb 48 c && leb c 57) || (leb 65 c && leb c 90) || (c == b'_') || (leb 97 c && leb c 122)
