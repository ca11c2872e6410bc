-- ===== src/Server/Choice.antt =====
-- src/server.rs: which server of a listener answers, by `match_config`.
use mathlib.Core.Path.{subst}
use localserver.Base.{
  ℕ, ==_iff, ◌≡◌, ◌≢◌, refl, ap, sym, ◌∙◌, ◌⊎◌, inl, inr, true, false, Option, none, some,
  Option-cases, Bool-cases, List, [], ◌∷◌, ◌++◌, done, ◌==◌,
}
use localserver.Std.Text.{Text, chars, text_eq, text_eq_iff, split, cons_head}
use localserver.Std.Text.Position.{without}
use localserver.Std.Map
use localserver.Std.Keys.{text_key}
use localserver.Config.Data.{ServerConfig}
use localserver.Request.Message.{Request}
use localserver.Server.{before_colon, named, host_of, find_config, first_config, match_config}

-- The host that a `Host` header names: all of it, or what stands before its first colon; without
-- a header, the empty text.
pub data Names : Option Text → Text → Type 0 where
  no_header : Names none []
  whole : {host : Text} → without b':' host ≡ true → Names (some host) host
  before_port :
      {host : Text} (port : Text)
      → without b':' host ≡ true
      → Names (some (host ++ b':' ∷ port)) host

-- `c` stands in the list, and no server before it has the name.
abbrev pub IsFirstNamed : Text → List ServerConfig → ServerConfig → Type 0
IsFirstNamed host [] c = ⊥
IsFirstNamed host (d ∷ rest) c =
    ((d.server_name ≡ some host) × (d ≡ c))
    ⊎ ((d.server_name ≢ some host) × IsFirstNamed host rest c)

abbrev pub IsUnnamed : Text → List ServerConfig → Type 0
IsUnnamed host [] = Unit
IsUnnamed host (d ∷ rest) = (d.server_name ≢ some host) × IsUnnamed host rest

before_colon-cons_head : (c : ℕ) (l : List Text) → before_colon (cons_head c l) ≡ c ∷ before_colon l
before_colon-cons_head c [] = refl
before_colon-cons_head c (s ∷ rest) = refl

-- A text without a colon, or the text before its first one and the text behind it.
Cut : (h : Text) → Type 0
Cut h =
    ((without b':' h ≡ true) × (before_colon (split (λ c. c == b':') h) ≡ h))
    ⊎ ((host port : Text) × (h ≡ host ++ b':' ∷ port)
        × (without b':' host ≡ true)
        × (before_colon (split (λ c. c == b':') h) ≡ host))

split-Cut : (h : Text) → Cut h
unfolding Cut split
split-Cut [] = inl (refl, refl)
split-Cut (c ∷ h) = elim (Bool-cases (c == b':')) [
  | inl colon ↦ inr ([], h, ap (λ x. x ∷ h) ((==_iff c b':').0 colon), refl, rw colon refl)
  | inr other ↦ elim (split-Cut h) [
    | inl (plain, first) ↦
        inl (rw (other, plain) refl, rw other (before_colon-cons_head c _ ∙ ap (λ s. c ∷ s) first))
    | inr (host, port, is_whole, plain, first) ↦ inr (
      c ∷ host,
      port,
      ap (λ s. c ∷ s) is_whole,
      rw (other, plain) refl,
      rw other (before_colon-cons_head c _ ∙ ap (λ s. c ∷ s) first),
    )
  ]
]

Names-split : (h : Text) → Names (some h) (before_colon (split (λ c. c == b':') h))
unfolding Cut
Names-split h = elim (split-Cut h) [
  | inl (plain, first) ↦ subst (Names (some h)) (sym first) (whole plain)
  | inr (host, port, is_whole, plain, first) ↦
      subst (Names (some h)) (sym first)
        (subst (λ x. Names (some x) host) (sym is_whole) (before_port port plain))
]

host_of-Names : (req : Request) → Names (Map.get req.headers (chars "host")) (host_of req)
unfolding host_of
host_of-Names req = elim (Option-cases (Map.get req.headers (chars "host"))) [
  | inl e ↦ rw (host_of, e) no_header
  | inr (h, e) ↦ rw (host_of, e) (Names-split h)
]

named-cases :
    (host : Text) (d : ServerConfig)
    → ((named host d ≡ true) × (d.server_name ≡ some host))
      ⊎ ((named host d ≡ false) × (d.server_name ≢ some host))
unfolding named
named-cases host d = elim (Option-cases d.server_name) [
  | inl e ↦
      inr (ap (λ o. elim o [ none ↦ false | some name ↦ text_eq name host ]) e, λ h. cc (e, h))
  | inr (name, e) ↦
      let tested : named host d ≡ text_eq name host =
        ap (λ o. elim o [ none ↦ false | some other ↦ text_eq other host ]) e in
      elim (Bool-cases (text_eq name host)) [
        | inl same ↦ inl (tested ∙ same, e ∙ ap some ((text_eq_iff name host).0 same))
        | inr other ↦ inr (
          tested ∙ other,
          λ h.
              let is_host : name ≡ host = cc (e, h) in
              cc ((text_eq_iff name host).1 is_host, other),
        )
      ]
]

find_config-some :
    (host : Text) (configs : List ServerConfig) {c : ServerConfig}
    → find_config host configs ≡ some c
    → IsFirstNamed host configs c
unfolding find_config
find_config-some host [] e = cc
find_config-some host (d ∷ rest) {c} e = elim (named-cases host d) [
  | inl (k, has) ↦ let e1 = rw (find_config, k) at e in inl (has, cc)
  | inr (k, lacks) ↦ inr (lacks, find_config-some host rest (rw (find_config, k) at e))
]

find_config-none :
    (host : Text) (configs : List ServerConfig)
    → find_config host configs ≡ none
    → IsUnnamed host configs
unfolding find_config
find_config-none host [] e = tt
find_config-none host (d ∷ rest) e = elim (named-cases host d) [
  | inl (k, has) ↦ cc (rw (find_config, k) at e)
  | inr (k, lacks) ↦ (lacks, find_config-none host rest (rw (find_config, k) at e))
]

-- A listener with a server answers each request by one of its servers: the first whose name is the
-- host in the `Host` header, without what follows a colon, or the first of all if none has that
-- name. Without a header the host is the empty text.
pub match_config-IsFirstNamed :
    (first : ServerConfig) (rest : List ServerConfig) (req : Request)
    → (c : ServerConfig) × (match_config (first ∷ rest) req ≡ done c)
      × ((host : Text) × Names (Map.get req.headers (chars "host")) host
          × (IsFirstNamed host (first ∷ rest) c ⊎ (IsUnnamed host (first ∷ rest) × (c ≡ first))))
unfolding match_config first_config
match_config-IsFirstNamed first rest req =
    elim (Option-cases (find_config (host_of req) (first ∷ rest))) [
      | inl nowhere ↦ (
        first,
        rw (match_config, nowhere) refl,
        (
          host_of req,
          host_of-Names req,
          inr (find_config-none (host_of req) (first ∷ rest) nowhere, refl),
        ),
      )
      | inr (c, found) ↦ (
        c,
        rw (match_config, found) refl,
        (host_of req, host_of-Names req, inl (find_config-some (host_of req) (first ∷ rest) found)),
      )
    ]
