-- ===== src/Handler/Route/Longest.antt =====
-- The location that serves a path is the longest one that begins it.
use mathlib.Core.Path.{subst}
use localserver.Base.{
  ◌≤◌, ◌≡◌, ◌⊎◌, refl, sym, ap, ◌∙◌, ◌↔◌, true, false, none, some, List, [], ◌∷◌, arith,
  if◌then◌else◌, leb, Bool-cases, inl, inr, leb→le,
}
use localserver.Std.Text.{Text, starts_with}
use localserver.Std.Utf8.{len}
use localserver.Config.Data.{Location, ServerConfig}
use localserver.Handler.Route.{matching, max_by_len, longest, match_location}

-- A location stands in a list.
abbrev pub In : Location → List Location → Type 0
In l [] = ⊥
In l (m ∷ locs) = (l ≡ m) ⊎ In l locs

-- `l` is one of the locations that begin the path, and none of these is longer.
pub record IsLongest (path : Text) (locs : List Location) (l : Location) : Type 0 where
  pub one_of : In l locs
  pub begins : starts_with path l.path ≡ true
  pub longest_of :
      (m : Location) → In m locs → starts_with path m.path ≡ true → len m.path ≤ len l.path

In-matching :
    (path : Text) (locs : List Location) (l : Location)
    → In l (matching path locs)
    → In l locs × (starts_with path l.path ≡ true)
unfolding matching
In-matching path [] l h = absurd h
In-matching path (m ∷ locs) l h = elim (Bool-cases (starts_with path m.path)) [
  | inl e ↦
      let k : In l (m ∷ matching path locs) = rw e at h in
      elim k [
        | inl p ↦ (inl p, ap (λ (x : Location). starts_with path x.path) p ∙ e)
        | inr q ↦ let (at, begins) = In-matching path locs l q in (inr at, begins)
      ]
  | inr e ↦
      let k : In l (matching path locs) = rw e at h in
      let (at, begins) = In-matching path locs l k in (inr at, begins)
]

matching-In :
    (path : Text) (locs : List Location) (l : Location)
    → In l locs
    → starts_with path l.path ≡ true
    → In l (matching path locs)
unfolding matching
matching-In path [] l h e = absurd h
matching-In path (m ∷ locs) l (inl p) e =
    rw (sym (ap (λ (x : Location). starts_with path x.path) p) ∙ e) (inl p)
matching-In path (m ∷ locs) l (inr h) e = elim (Bool-cases (starts_with path m.path)) [
  | inl k ↦ rw k (inr (matching-In path locs l h e))
  | inr k ↦ rw k (matching-In path locs l h e)
]

-- A step keeps the longer of two, and the later of two that are as long.
max_by_len-step :
    (best l : Location) (locs : List Location)
    → ((len best.path ≤ len l.path) × (max_by_len best (l ∷ locs) ≡ max_by_len l locs))
      ⊎ ((len l.path ≤ len best.path) × (max_by_len best (l ∷ locs) ≡ max_by_len best locs))
unfolding max_by_len
max_by_len-step best l locs = elim (Bool-cases (leb (len best.path) (len l.path))) [
  | inl e ↦ inl (leb→le _ _ e, ap (λ b. max_by_len (if b then l else best) locs) e)
  | inr e ↦ inr (ground arith, ap (λ b. max_by_len (if b then l else best) locs) e)
]

max_by_len-In : (best : Location) (locs : List Location) → In (max_by_len best locs) (best ∷ locs)
max_by_len-In best [] = inl (unfold max_by_len in refl)
max_by_len-In best (l ∷ locs) = elim (max_by_len-step best l locs) [
  | inl (h, p) ↦ subst (λ x. In x (best ∷ l ∷ locs)) (sym p) (inr (max_by_len-In l locs))
  | inr (h, p) ↦
      subst (λ x. In x (best ∷ l ∷ locs)) (sym p)
        (elim (max_by_len-In best locs) [ inl here ↦ inl here | inr later ↦ inr (inr later) ])
]

max_by_len-le :
    (best : Location) (locs : List Location) (m : Location)
    → In m (best ∷ locs)
    → len m.path ≤ len (max_by_len best locs).path
max_by_len-le best [] m h = unfold max_by_len in ground arith
max_by_len-le best (l ∷ locs) m h = elim (max_by_len-step best l locs) [
  | inl (k, p) ↦
      rw p (ground (arith, h, k, max_by_len-le l locs l (inl refl), max_by_len-le l locs m))
  | inr (k, p) ↦
      rw p
        (ground (arith, h, k, max_by_len-le best locs best (inl refl), max_by_len-le best locs m))
]

-- A path is served by the longest location that begins it, and by none exactly if none begins it.
pub match_location-IsLongest :
    (path : Text) (config : ServerConfig)
    → ((l : Location) → match_location path config ≡ some l → IsLongest path config.locations l)
      × ((match_location path config ≡ none)
          ↔ ((l : Location) → In l config.locations → starts_with path l.path ≡ false))
unfolding match_location longest
match_location-IsLongest path config = by_list (matching path config.locations) refl
  where
    by_list :
        (ms : List Location)
        → matching path config.locations ≡ ms
        → ((l : Location) → longest ms ≡ some l → IsLongest path config.locations l)
          × ((longest ms ≡ none)
              ↔ ((l : Location) → In l config.locations → starts_with path l.path ≡ false))
    by_list [] e = (
      λ l h. cc h,
      (
        λ _ l at. elim (Bool-cases (starts_with path l.path)) [
          | inl begins ↦ absurd (rw e at (matching-In path config.locations l at begins))
          | inr other ↦ other
        ],
        λ _. refl,
      ),
    )
    by_list (x ∷ ms) e =
        let best : Location = max_by_len x ms in
        let (at, begins) = In-matching path config.locations best (rw e (max_by_len-In x ms)) in
        let longest_of : (m : Location)
            → In m config.locations
            → starts_with path m.path ≡ true
            → len m.path ≤ len best.path =
          λ m k b. max_by_len-le x ms m (rw e at (matching-In path config.locations m k b)) in
        let same : (l : Location) → longest (x ∷ ms) ≡ some l → best ≡ l = λ l h. cc h in
        (
          λ l h.
              subst (IsLongest path config.locations) (same l h)
                (record { one_of = at; begins = begins; longest_of = longest_of }),
          (λ h. cc h, λ none_begin. cc (none_begin best at, begins)),
        )
