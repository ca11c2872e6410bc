-- ===== src/Std/Text/Trim.antt =====
-- Trimming a text that has nothing to trim.
use localserver.Base.{ℕ, ◌≡◌, refl, Bool, true, not, [], ◌∷◌, arith, all, ap, ◌∙◌}
use localserver.Std.Text.{Text, trim_start_matches, trim_end_matches, trim, is_whitespace}

abbrev pub none_match : (ℕ → Bool) → Text → Bool
none_match p = all (λ c. not (p c))

module _ (p : ℕ → Bool) where
  pub trim_start_matches-none : (s : Text) → none_match p s ≡ true → trim_start_matches p s ≡ s
  unfolding trim_start_matches
  trim_start_matches-none [] h = refl
  trim_start_matches-none (c ∷ s) h = ground arith

  pub trim_end_matches-none : (s : Text) → none_match p s ≡ true → trim_end_matches p s ≡ s
  unfolding trim_end_matches
  trim_end_matches-none [] h = refl
  trim_end_matches-none (c ∷ s) h = ground (arith, trim_end_matches-none s)

-- A text without white space stays as it is.
pub trim-none : (s : Text) → none_match is_whitespace s ≡ true → trim s ≡ s
unfolding trim
trim-none s h =
    ap (trim_end_matches is_whitespace) (trim_start_matches-none is_whitespace s h)
    ∙ trim_end_matches-none is_whitespace s h
