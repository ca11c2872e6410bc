-- ===== src/Std/Map.antt =====
-- `HashMap` as an association list without order: a key that is inserted again is replaced.
pub mod Distinct
use localserver.Base.{
  ◌≡◌, refl, ◌≢◌, Bool, true, false, not, ◌&&◌, Option, none, some, List, [], ◌∷◌, arith,
  if◌then◌else◌, ◌↔◌, Bool-cases, inl, inr,
}

-- The equality test of the keys.
pub record Key {ℓ} (K : Type ℓ) : Type ℓ where
  pub beq : K → K → Bool
  pub beq_iff : (a b : K) → (beq a b ≡ true) ↔ (a ≡ b)

module _ {ℓ κ} {K : Type ℓ} {V : Type κ} ⦃k : Key K⦄ where
  unfoldable pub get : List (K × V) → K → Option V
  get [] j = none
  get ((i, v) ∷ m) j = if k.beq i j then some v else get m j

  unfoldable pub insert : List (K × V) → K → V → List (K × V)
  insert [] j w = (j, w) ∷ []
  insert ((i, v) ∷ m) j w =
      let rest = (i, v) ∷ insert m j w in if k.beq i j then (j, w) ∷ m else rest

  unfoldable pub remove : List (K × V) → K → List (K × V)
  remove [] j = []
  remove ((i, v) ∷ m) j = let rest = remove m j in if k.beq i j then rest else (i, v) ∷ rest

  -- `retain` keeps the entries that pass the test.
  unfoldable pub retain : (V → Bool) → List (K × V) → List (K × V)
  retain p [] = []
  retain p ((i, v) ∷ m) = let rest = retain p m in if p v then (i, v) ∷ rest else rest

  pub get-insert :
      (m : List (K × V)) (i j : K) (v : V)
      → get (insert m i v) j ≡ (if k.beq i j then some v else get m j)
  unfolding get insert
  get-insert [] i j v = refl
  get-insert ((h, w) ∷ m) i j v =
      ground (arith, k.beq_iff h i, k.beq_iff h j, k.beq_iff i j, get-insert m i j v)

  pub get-remove :
      (m : List (K × V)) (i j : K) → get (remove m i) j ≡ (if k.beq i j then none else get m j)
  unfolding get remove
  get-remove [] i j = ground arith
  get-remove ((h, w) ∷ m) i j =
      ground (arith, k.beq_iff h i, k.beq_iff h j, k.beq_iff i j, get-remove m i j)
