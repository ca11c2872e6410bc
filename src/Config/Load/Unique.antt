-- ===== src/Config/Load/Unique.antt =====
-- The start-up check accepts a configuration exactly when no two servers have one key, and the
-- groups hold each server under its own address.
use mathlib.Core.Option
use localserver.Base.{
  ◌≡◌, ◌≢◌, ◌↔◌, refl, sym, ap, ◌∙◌, false, none, List, [], ◌∷◌, ◌++◌, append_assoc, append-nil,
  arith, if◌then◌else◌, Bool-cases, Option-cases, inl, inr,
}
use localserver.Std.Text.{Text, text_eq, text_eq_iff}
use localserver.Std.Map
use localserver.Std.Map.{insert, get-insert}
use localserver.Std.Keys.{text_key}
use localserver.Config.Data.{ServerConfig, Config}
use localserver.Config.Load.{
  addr, server_key, loaded, is_member, find_duplicate, validate, add_server, group_servers,
}

-- No key of `servers` is among `seen`, and none stands twice.
abbrev pub Fresh : Text → List Text → Type 0
Fresh k [] = Unit
Fresh k (j ∷ seen) = (k ≢ j) × Fresh k seen

abbrev pub AllFresh : List Text → List ServerConfig → Type 0
AllFresh seen [] = Unit
AllFresh seen (s ∷ servers) = Fresh (server_key s) seen × AllFresh (server_key s ∷ seen) servers

is_member-Fresh : (k : Text) (seen : List Text) → (is_member k seen ≡ false) ↔ Fresh k seen
unfolding is_member
is_member-Fresh k [] = (λ _. tt, λ _. refl)
is_member-Fresh k (j ∷ seen) = (
  λ h. ground (arith, text_eq_iff k j, is_member-Fresh k seen),
  λ f. ground (arith, text_eq_iff k j, is_member-Fresh k seen),
)

find_duplicate-none :
    (seen : List Text) (servers : List ServerConfig)
    → (find_duplicate seen servers ≡ none) ↔ AllFresh seen servers
unfolding find_duplicate
find_duplicate-none seen [] = (λ _. tt, λ _. refl)
find_duplicate-none seen (s ∷ servers) =
    let here = is_member-Fresh (server_key s) seen in
    let rest = find_duplicate-none (server_key s ∷ seen) servers in
    elim (Bool-cases (is_member (server_key s) seen)) [
      | inl old ↦ rw old (λ e. cc e, λ (f, _). cc (here.1 f, old))
      | inr new ↦ rw new (λ e. (here.0 new, rest.0 e), λ (_, fs). rest.1 fs)
    ]

-- A configuration is accepted exactly when no two of its servers have the same key, which is
-- made of host, port and name.
pub validate-loaded : (c : Config) → (validate c ≡ loaded c) ↔ AllFresh [] c.servers
unfolding validate
validate-loaded c =
    let unique = find_duplicate-none [] c.servers in
    elim (Option-cases (find_duplicate [] c.servers)) [
      | inl e ↦ rw (e, validate) (λ _. unique.0 e, λ _. refl)
      | inr (k, e) ↦ rw (e, validate) (λ h. cc h, λ f. cc (unique.1 f, e))
    ]

-- The servers whose address is `a`, in their order.
abbrev pub servers_at : Text → List ServerConfig → List ServerConfig
servers_at a [] = []
servers_at a (s ∷ servers) =
    let rest = servers_at a servers in if text_eq (addr s) a then s ∷ rest else rest

abbrev pub group : List (Text × List ServerConfig) → Text → List ServerConfig
group groups a = Option.get_or (Map.get groups a) []

group-add_server :
    (groups : List (Text × List ServerConfig)) (s : ServerConfig) (a : Text)
    → group (add_server groups s) a
      ≡ (if text_eq (addr s) a then group groups a ++ s ∷ [] else group groups a)
unfolding add_server
group-add_server groups s a =
    ap (λ o. Option.get_or o []) (get-insert groups (addr s) a _)
    ∙ elim (Bool-cases (text_eq (addr s) a)) [
      | inl e ↦ rw (e, (text_eq_iff (addr s) a).0 e)
      | inr e ↦ rw e
    ]

group-group_servers :
    (groups : List (Text × List ServerConfig)) (servers : List ServerConfig) (a : Text)
    → group (group_servers groups servers) a ≡ group groups a ++ servers_at a servers
unfolding group_servers
group-group_servers groups [] a = sym (append-nil (group groups a))
group-group_servers groups (s ∷ servers) a =
    group-group_servers (add_server groups s) servers a
    ∙ ap (λ l. l ++ servers_at a servers) (group-add_server groups s a)
    ∙ elim (Bool-cases (text_eq (addr s) a)) [
      | inl e ↦ rw e (append_assoc (group groups a) (s ∷ []) (servers_at a servers))
      | inr e ↦ rw e
    ]

-- Each listener gets the servers of its address, all of them and in the order of the file.
pub group_servers-servers_at :
    (servers : List ServerConfig) (a : Text)
    → group (group_servers [] servers) a ≡ servers_at a servers
unfolding Map.get
group_servers-servers_at servers a = group-group_servers [] servers a
