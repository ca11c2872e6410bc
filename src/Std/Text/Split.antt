-- ===== src/Std/Text/Split.antt =====
-- Splitting a text that was put together from pieces.
use localserver.Base.{ℕ, ◌≡◌, refl, Bool, true, false, some, [], ◌∷◌, ◌++◌, arith, is_empty}
use localserver.Std.Text.{Text, split, split_once, split_whitespace, is_whitespace}
use localserver.Std.Text.Trim.{none_match}
use localserver.Std.Text.Position.{without}

module _ (p : ℕ → Bool) where
  pub split-none : (s : Text) → none_match p s ≡ true → split p s ≡ s ∷ []
  unfolding split
  split-none [] h = refl
  split-none (c ∷ s) h = ground (arith, split-none s)

  pub split-append :
      (s : Text) (d : ℕ) (t : Text)
      → none_match p s ≡ true
      → p d ≡ true
      → split p (s ++ d ∷ t) ≡ s ∷ split p t
  unfolding split
  split-append [] d t h k = rw k
  split-append (c ∷ s) d t h k = ground (arith, split-append s d t)

pub split_once-append :
    (s : Text) (d : ℕ) (t : Text) → without d s ≡ true → split_once d (s ++ d ∷ t) ≡ some (s, t)
unfolding split_once
split_once-append [] d t h = ground arith
split_once-append (c ∷ s) d t h = ground (arith, split_once-append s d t)

-- A word: characters, none of them white space.
pub record IsWord (s : Text) : Type 0 where
  pub some_char : is_empty s ≡ false
  pub no_space : none_match is_whitespace s ≡ true

abbrev pub space : ℕ
space = b' '

-- Three words with a space between them are split into the three.
pub split_whitespace-words :
    (m p v : Text)
    → IsWord m
    → IsWord p
    → IsWord v
    → split_whitespace (m ++ space ∷ (p ++ space ∷ v)) ≡ m ∷ p ∷ v ∷ []
unfolding split_whitespace
split_whitespace-words m p v hm hp hv = rw (
  split-append is_whitespace m space (p ++ space ∷ v) hm.no_space space_blank,
  split-append is_whitespace p space v hp.no_space space_blank,
  split-none is_whitespace v hv.no_space,
  hm.some_char,
  hp.some_char,
  hv.some_char,
)
  where
    space_blank : is_whitespace space ≡ true
    space_blank = unfold is_whitespace in refl
