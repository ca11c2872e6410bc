-- ===== src/Std/Text/Lower.antt =====
-- `to_lowercase` on texts in lower case.
use localserver.Base.{ℕ, ◌++◌, ◌≡◌, refl, Bool, ◌&&◌, true, [], ◌∷◌, ltb, ◌==◌, all, arith}
use localserver.Std.Text.{Text, Unicode, lower_from, ascii_lower, to_lowercase}

abbrev pub is_lowered : ℕ → Bool
is_lowered c = ltb c 128 && ascii_lower c == c

lower_from-lowered :
    (u : Unicode) (before s : Text) → all is_lowered s ≡ true → lower_from u before s ≡ s
unfolding lower_from
lower_from-lowered u before [] h = refl
lower_from-lowered u before (c ∷ s) h = ground (arith, lower_from-lowered u (before ++ c ∷ []) s)

pub to_lowercase-lowered : (u : Unicode) (s : Text) → all is_lowered s ≡ true → to_lowercase u s ≡ s
unfolding to_lowercase
to_lowercase-lowered u s h = lower_from-lowered u [] s h
