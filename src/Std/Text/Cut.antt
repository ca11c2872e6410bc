-- ===== src/Std/Text/Cut.antt =====
-- What is found in the first part of a text.
use localserver.Base.{
  ℕ, zero, suc, ◌+◌, ◌<◌, ◌≤◌, ◌≡◌, refl, true, false, none, some, [], ◌∷◌, arith, length, take,
  length-take, Bool-cases, inl, inr, Option-cases,
}
use localserver.Std.Text.{Text, starts_with, position}

starts_with-length : (s t : Text) → starts_with s t ≡ true → length t ≤ length s
unfolding starts_with
starts_with-length s [] h = omega arith
starts_with-length [] (d ∷ t) h = cc
starts_with-length (c ∷ s) (d ∷ t) h = ground (arith, starts_with-length s t)

starts_with-take : (n : ℕ) (s t : Text) → starts_with (take n s) t ≡ true → starts_with s t ≡ true
unfolding starts_with
starts_with-take n s [] h = refl
starts_with-take zero s (d ∷ t) h = cc
starts_with-take (suc n) [] (d ∷ t) h = cc
starts_with-take (suc n) (c ∷ s) (d ∷ t) h = ground (arith, starts_with-take n s t)

-- A text is not found in a shorter one.
position-short : (t s : Text) → length s < length t → position t s ≡ none
unfolding position
position-short t [] h = refl
position-short t (c ∷ s) h = ground (arith, position-short t s, starts_with-length (c ∷ s) t)

-- It is not found in what is cut off before its first place ends.
pub position-take :
    (n p : ℕ) (t s : Text) → position t s ≡ some p → n < p + length t → position t (take n s) ≡ none
unfolding position
position-take n p t [] found cut = cc
position-take zero p t (c ∷ s) found cut = refl
position-take (suc n) p t (c ∷ s) found cut = elim (Bool-cases (starts_with (c ∷ s) t)) [
  | inl here ↦
      let first : 0 ≡ p = cc (rw here at found) in
      position-short t (c ∷ take n s) (omega (arith, length-take n s, first))
  | inr away ↦
      let not_here : starts_with (c ∷ take n s) t ≡ false =
        elim (Bool-cases (starts_with (c ∷ take n s) t)) [
          | inl cut_here ↦ cc (starts_with-take (suc n) (c ∷ s) t cut_here, away)
          | inr fails ↦ fails
        ] in
      elim (Option-cases (position t s)) [
        | inl nowhere ↦ cc (rw (away, nowhere) at found)
        | inr (q, later) ↦
            let next : q + 1 ≡ p = cc (rw (away, later) at found) in
            let rest = position-take n q t s later (omega (arith, next)) in rw (not_here, rest) refl
      ]
]
