-- ===== src/Std/Text/Lines.antt =====
-- Lines joined by carriage return and line feed: `lines` takes them apart again, and the blank
-- line behind them is the first one.
use localserver.Base.{
  ℕ, ◌+◌, ◌≡◌, refl, sym, ap, ◌∙◌, Bool, true, false, some, List, [], ◌∷◌, ◌++◌, append_assoc,
  append-nil, arith, all, all-append, is_empty, length, length-append, ◌==◌,
}
use localserver.Std.Text.{
  Text, chars, split, lines, lines_of, strip_cr, strip_suffix, text_eq, position, starts_with,
}
use localserver.Std.Text.Position.{without, position-append}
use localserver.Std.Text.Split.{split-none, split-append}

-- A line of a header: not empty, and on one line.
pub record IsLine (s : Text) : Type 0 where
  pub some_char : is_empty s ≡ false
  pub no_cr : without b'\r' s ≡ true
  pub no_lf : without b'\n' s ≡ true

abbrev pub AllLines : List Text → Type 0
AllLines [] = Unit
AllLines (s ∷ l) = IsLine s × AllLines l

abbrev eol : Text → Text
eol t = b'\r' ∷ b'\n' ∷ t

-- Each further line behind a line end.
more_lines : List Text → Text
more_lines [] = []
more_lines (t ∷ l) = eol (t ++ more_lines l)

unfoldable pub join_lines : Text → List Text → Text
unfolding more_lines
join_lines s l = s ++ more_lines l

without-snoc :
    (d : ℕ) (s : Text) (c : ℕ)
    → without d s ≡ true
    → (c == d) ≡ false
    → without d (s ++ c ∷ []) ≡ true
without-snoc d [] c h k = ground arith
without-snoc d (e ∷ s) c h k = ground (arith, without-snoc d s c)

strip_cr-snoc :
    (s : Text) → without b'\r' s ≡ true → strip_suffix (s ++ b'\r' ∷ []) (chars "\r") ≡ some s
unfolding strip_suffix text_eq
strip_cr-snoc [] h = refl
strip_cr-snoc (c ∷ s) h = ground (arith, strip_cr-snoc s)

lines_of-cons :
    (s : Text) (pieces : List Text) {t : Text} {l : List Text}
    → lines_of pieces ≡ t ∷ l
    → lines_of (s ∷ pieces) ≡ strip_cr s ∷ lines_of pieces
unfolding lines_of
lines_of-cons s [] e = cc
lines_of-cons s (p ∷ pieces) e = refl

split-join :
    (s : Text) (l : List Text)
    → AllLines (s ∷ l)
    → lines_of (split (λ c. c == b'\n') (join_lines s l)) ≡ s ∷ l
unfolding join_lines
split-join s [] (h, rest) =
    rw (append-nil s, split-none (λ c. c == b'\n') s h.no_lf) (unfold lines_of in rw h.some_char)
split-join s (t ∷ l) (h, rest) =
    let ih = split-join t l rest in
    let apart : s ++ eol (join_lines t l) ≡ (s ++ b'\r' ∷ []) ++ b'\n' ∷ join_lines t l =
      simp append_assoc in
    let no_lf = without-snoc b'\n' s b'\r' h.no_lf refl in
    ap (λ x. lines_of (split (λ c. c == b'\n') x)) apart
    ∙ ap lines_of
        (split-append (λ c. c == b'\n') (s ++ b'\r' ∷ []) b'\n' (join_lines t l) no_lf refl)
    ∙ lines_of-cons (s ++ b'\r' ∷ []) (split (λ c. c == b'\n') (join_lines t l)) ih
    ∙ rw ih (ap (λ x. x ∷ t ∷ l) (unfold strip_cr in rw (strip_cr-snoc s h.no_cr)))

-- Joined lines are taken apart again.
pub lines-join_lines :
    (s : Text) (l : List Text) → AllLines (s ∷ l) → lines (join_lines s l) ≡ s ∷ l
unfolding lines
lines-join_lines s l h = split-join s l h

abbrev pub separator : Text
separator = eol (eol [])

module _ (r : Text) {n : ℕ} (found : position separator r ≡ some n) where
  -- Nothing is found in front of text without a carriage return.
  position-skip :
      (s : Text) → without b'\r' s ≡ true → position separator (s ++ r) ≡ some (length s + n)
  unfolding position starts_with
  position-skip [] h = found ∙ ap some (omega arith)
  position-skip (c ∷ s) h = ground (arith, position-skip s)

-- A line end with a line behind it is no blank line.
position-eol :
    (t u : Text) {n : ℕ}
    → is_empty t ≡ false
    → without b'\r' t ≡ true
    → position separator (t ++ u) ≡ some n
    → position separator (eol (t ++ u)) ≡ some (n + 2)
unfolding position starts_with
position-eol [] u e h found = cc
position-eol (c ∷ t) u e h found = ground arith

-- The first blank line is the one behind the joined lines.
pub position-join_lines :
    (s : Text) (l : List Text) (r : Text)
    → AllLines (s ∷ l)
    → position separator (join_lines s l ++ (separator ++ r)) ≡ some (length (join_lines s l))
position-join_lines s [] r (h, rest) =
    unfold join_lines in rw (append-nil s) (position-append s b'\r' _ r h.no_cr)
position-join_lines s (t ∷ l) r (h, (k, rest)) =
    let ending : Text = separator ++ r in
    let ih = position-join_lines t l r (k, rest) in
    let apart : join_lines t l ++ ending ≡ t ++ (more_lines l ++ ending) =
      unfold join_lines in append_assoc t (more_lines l) ending in
    let behind =
      position-eol t (more_lines l ++ ending) k.some_char k.no_cr
        (ap (position separator) (sym apart) ∙ ih) in
    let front : join_lines s (t ∷ l) ++ ending ≡ s ++ eol (t ++ (more_lines l ++ ending)) =
      unfold join_lines in simp append_assoc in
    let size : length s + (length (join_lines t l) + 2) ≡ length (join_lines s (t ∷ l)) =
      unfold join_lines in omega (arith, length-append s (eol (t ++ more_lines l))) in
    ap (position separator) front
    ∙ position-skip (eol (t ++ (more_lines l ++ ending))) behind s h.no_cr
    ∙ ap some size

module _ (p : ℕ → Bool) (cr : p b'\r' ≡ true) (lf : p b'\n' ≡ true) where
  abbrev pub EachLine : List Text → Type 0
  EachLine [] = Unit
  EachLine (s ∷ l) = (all p s ≡ true) × EachLine l

  all-more_lines : (l : List Text) → EachLine l → all p (more_lines l) ≡ true
  unfolding more_lines
  all-more_lines [] h = refl
  all-more_lines (t ∷ l) (h, rest) =
      ground (arith, cr, lf, all-append p t (more_lines l) h (all-more_lines l rest))

  pub all-join_lines :
      (s : Text) (l : List Text) → all p s ≡ true → EachLine l → all p (join_lines s l) ≡ true
  unfolding join_lines
  all-join_lines s l h rest = all-append p s (more_lines l) h (all-more_lines l rest)
