-- ===== src/Std/Map/Distinct.antt =====
-- No key stands twice in a map: the invariant of `HashMap`, which every operation keeps.
use mathlib.Core.Option
use localserver.Base.{
  ◌≡◌, refl, ◌∙◌, Bool, false, none, some, List, [], ◌∷◌, ◌++◌, arith, if◌then◌else◌, Bool-cases,
  inl, inr,
}
use localserver.Std.Map.{Key, get, insert, remove, retain, get-insert, get-remove}

module _ {ℓ κ} {K : Type ℓ} {V : Type κ} ⦃k : Key K⦄ where
  abbrev pub Distinct : List (K × V) → Type κ
  Distinct [] = Unit
  Distinct ((i, v) ∷ m) = (get m i ≡ none) × Distinct m

  pub insert-Distinct : (m : List (K × V)) (i : K) (v : V) → Distinct m → Distinct (insert m i v)
  unfolding insert
  insert-Distinct [] i v d = (unfold get in refl, tt)
  insert-Distinct ((h, w) ∷ m) i v (new, d) = elim (Bool-cases (k.beq h i)) [
    | inl same ↦ rw same (rw ((k.beq_iff h i).0 same) at new, d)
    | inr other ↦
        let apart : k.beq i h ≡ false = ground (arith, k.beq_iff h i, k.beq_iff i h) in
        rw other (rw (get-insert m i h v, apart) new, insert-Distinct m i v d)
  ]

  -- A key that is not there is not there behind a removal.
  get-remove-none : (m : List (K × V)) (i j : K) → get m i ≡ none → get (remove m j) i ≡ none
  get-remove-none m i j h = get-remove m j i ∙ ground arith

  pub remove-Distinct : (m : List (K × V)) (i : K) → Distinct m → Distinct (remove m i)
  unfolding remove
  remove-Distinct [] i d = tt
  remove-Distinct ((h, w) ∷ m) i (new, d) = elim (Bool-cases (k.beq h i)) [
    | inl same ↦ rw same (remove-Distinct m i d)
    | inr other ↦ rw other (get-remove-none m h i new, remove-Distinct m i d)
  ]

  pub get-retain :
      (p : V → Bool) (m : List (K × V)) (i : K)
      → Distinct m
      → get (retain p m) i ≡ Option.bind (get m i) (λ v. if p v then some v else none)
  unfolding get retain Option.bind
  get-retain p [] i d = refl
  get-retain p ((h, w) ∷ m) i (new, d) =
      ground (arith, k.beq_iff h i, get-retain p m i d, get-retain p m h d)

  pub retain-Distinct : (p : V → Bool) (m : List (K × V)) → Distinct m → Distinct (retain p m)
  unfolding retain
  retain-Distinct p [] d = tt
  retain-Distinct p ((h, w) ∷ m) (new, d) =
      let absent : get (retain p m) h ≡ none =
        get-retain p m h d ∙ (unfold Option.bind in rw new) in
      elim (Bool-cases (p w)) [
        | inl kept ↦ rw kept (absent, retain-Distinct p m d)
        | inr dropped ↦ rw dropped (retain-Distinct p m d)
      ]

  -- A new key goes to the end.
  pub insert-new :
      (m : List (K × V)) (i : K) (v : V) → get m i ≡ none → insert m i v ≡ m ++ (i, v) ∷ []
  unfolding get insert
  insert-new [] i v e = refl
  insert-new ((h, w) ∷ m) i v e = ground (arith, insert-new m i v)

  get-append :
      (a m : List (K × V)) (h i : K) (v : V) → get (a ++ (i, v) ∷ m) h ≡ none → k.beq i h ≡ false
  unfolding get
  get-append [] m h i v e = ground arith
  get-append ((j, w) ∷ a) m h i v e = ground (arith, get-append a m h i v)

  -- In a map without repeated keys, the entries before one do not have its key.
  pub Distinct-before :
      (a m : List (K × V)) (i : K) (v : V) → Distinct (a ++ (i, v) ∷ m) → get a i ≡ none
  unfolding get
  Distinct-before [] m i v d = refl
  Distinct-before ((h, w) ∷ a) m i v (new, d) =
      ground
        (arith, Distinct-before a m i v d, get-append a m h i v new, k.beq_iff h i, k.beq_iff i h)
