-- ===== src/Std/Text/Position.antt =====
-- Where a line end is first found.
use localserver.Base.{ℕ, ◌≡◌, refl, Bool, true, not, some, [], ◌∷◌, ◌++◌, arith, all, length, ◌==◌}
use localserver.Std.Text.{Text, starts_with, position}

abbrev pub without : ℕ → Text → Bool
without d = all (λ c. not (c == d))

starts_with-append : (t s : Text) → starts_with (t ++ s) t ≡ true
unfolding starts_with
starts_with-append [] s = refl
starts_with-append (d ∷ t) s = ground (arith, starts_with-append t s)

-- A text is found behind text that does not hold its first character.
pub position-append :
    (s : Text) (d : ℕ) (t r : Text)
    → without d s ≡ true
    → position (d ∷ t) (s ++ ((d ∷ t) ++ r)) ≡ some (length s)
unfolding position
position-append [] d t r h = rw (starts_with-append (d ∷ t) r)
position-append (c ∷ s) d t r h = ground (arith, position-append s d t r)
