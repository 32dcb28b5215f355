-- ===== src/Text.antt =====
-- Texts that the program builds or takes apart: lists of code points.
use Prim.Native.Char.{code}
use saps_case_dockets.Prelude.{ℕ, String, Bool, true, false, ◌&&◌, ◌||◌, List, [], ◌∷◌, ◌==◌}

abbrev pub Text : Type 0
Text = List ℕ

-- a literal of the source
unfoldable pub codes : String → Text
codes String.[] = []
codes (String.◌∷◌ c s) = code c ∷ codes s

unfoldable pub text_eq : Text → Text → Bool
text_eq [] [] = true
text_eq [] (d ∷ t) = false
text_eq (c ∷ s) [] = false
text_eq (c ∷ s) (d ∷ t) = c == d && text_eq s t

-- `s.startswith(t)`, the prefix first
unfoldable pub starts_with : Text → Text → Bool
starts_with [] s = true
starts_with (d ∷ t) [] = false
starts_with (d ∷ t) (c ∷ s) = c == d && starts_with t s

-- `t in s`, the part first
unfoldable pub occurs : Text → Text → Bool
unfolding starts_with
occurs t [] = starts_with t []
occurs t (c ∷ s) = starts_with t (c ∷ s) || occurs t s
