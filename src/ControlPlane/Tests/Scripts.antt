-- ===== src/ControlPlane/Tests/Scripts.antt =====
-- apps/control-plane/src/data/sql-text.ts on a script of two statements.
use just_postgres.Shared.{◌≡◌, refl, some, length, ◌++◌, [], ◌∷◌, arith, All}
use just_postgres.Router.Text.{Text, text}
use just_postgres.ControlPlane.Quoting.{quote_literal}
use just_postgres.ControlPlane.SqlText.{strip, strip_noise, split, split_statements}
use just_postgres.ControlPlane.SqlText.Progress.{loops_end}
use just_postgres.ControlPlane.SqlText.Noise.{strip_noise-quote_literal}
use just_postgres.ControlPlane.SqlText.Offsets.{IsAt, split_statements-IsAt}

abbrev script : Text
script = text "a';';$x$;$x$ b"

loops_end_example :
    (strip 40 script ≡ some (strip_noise script))
    × (split 40 0 [] script ≡ some (split_statements script))
loops_end_example = loops_end 40 script (omega arith)

strip_noise-quote_literal_example :
    strip_noise (text "set x to " ++ (quote_literal (text "where") ++ text ";"))
    ≡ text "set x to " ++ 32 ∷ strip_noise (text ";")
strip_noise-quote_literal_example =
    strip_noise-quote_literal (text "set x to ") (text "where") (text ";")
      (refl, (refl, (refl, (refl, (refl, (refl, (refl, (refl, (refl, tt))))))))) (omega arith)

split_statements-IsAt_example :
    (split (length script) 0 [] script ≡ some (split_statements script))
    × All (IsAt script) (split_statements script)
split_statements-IsAt_example = split_statements-IsAt script
