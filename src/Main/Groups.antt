-- ===== src/Main/Groups.antt =====
-- Every listener that is started has a server, and only servers of its address.
use mathlib.Core.Option
use mathlib.Core.Path.{subst}
use localserver.Base.{
  ◌≡◌, refl, sym, ◌∙◌, false, Option, some, Option-cases, Bool-cases, inl, inr, List, [], ◌∷◌, ◌++◌,
  is_empty,
}
use localserver.Std.Text.{Text, text_eq, text_eq_iff, Unicode}
use localserver.Std.Map
use localserver.Std.Map.{insert, get-insert}
use localserver.Std.Keys.{text_key}
use localserver.Config.Data.{ServerConfig}
use localserver.Config.Load.{
  addr, Loaded, loaded, unreadable, bad_config, duplicate, out_of_time, from_file, add_server,
  group_servers,
}
use localserver.Main.{started, config_path, start_groups, main}

abbrev Groups : Type 0
Groups = List (Text × List ServerConfig)

abbrev pub AllAt : Text → List ServerConfig → Type 0
AllAt a [] = Unit
AllAt a (s ∷ servers) = (addr s ≡ a) × AllAt a servers

-- Each group has a server, and only servers of its address.
abbrev pub AreListeners : List (Text × List ServerConfig) → Type 0
AreListeners groups =
    (a : Text) (servers : List ServerConfig)
    → Map.get groups a ≡ some servers
    → (is_empty servers ≡ false) × AllAt a servers

AllAt-snoc :
    (a : Text) (servers : List ServerConfig) (s : ServerConfig)
    → AllAt a servers
    → addr s ≡ a
    → (is_empty (servers ++ s ∷ []) ≡ false) × AllAt a (servers ++ s ∷ [])
AllAt-snoc a [] s h e = (refl, (e, tt))
AllAt-snoc a (t ∷ servers) s (k, h) e = (refl, (k, (AllAt-snoc a servers s h e).1))

group-AllAt :
    (groups : Groups) (a : Text)
    → AreListeners groups
    → AllAt a (Option.get_or (Map.get groups a) [])
group-AllAt groups a h = elim (Option-cases (Map.get groups a)) [
  | inl none_yet ↦ rw none_yet tt
  | inr (servers, there) ↦ rw there (h a servers there).1
]

add_server-AreListeners :
    (groups : Groups) (s : ServerConfig) → AreListeners groups → AreListeners (add_server groups s)
unfolding add_server
add_server-AreListeners groups s h a servers there =
    let old = Option.get_or (Map.get groups (addr s)) [] in
    let found = sym (get-insert groups (addr s) a (old ++ s ∷ [])) ∙ there in
    elim (Bool-cases (text_eq (addr s) a)) [
      | inr other ↦ h a servers (rw other at found)
      | inl same ↦
          let here = (text_eq_iff (addr s) a).0 same in
          let is_servers : old ++ s ∷ [] ≡ servers = cc (rw same at found) in
          subst (λ l. (is_empty l ≡ false) × AllAt a l) is_servers
            (AllAt-snoc a old s (subst (λ x. AllAt x old) here (group-AllAt groups (addr s) h))
              here)
    ]

group_servers-AreListeners :
    (groups : Groups) (servers : List ServerConfig)
    → AreListeners groups
    → AreListeners (group_servers groups servers)
unfolding group_servers
group_servers-AreListeners groups [] h = h
group_servers-AreListeners groups (s ∷ servers) h =
    group_servers-AreListeners (add_server groups s) servers (add_server-AreListeners groups s h)

start_groups-AreListeners :
    (l : Loaded) (groups : Groups) → start_groups l ≡ started groups → AreListeners groups
unfolding start_groups Map.get
start_groups-AreListeners (loaded c) groups e =
    subst AreListeners {x = group_servers [] c.servers} {y = groups} (cc)
      (group_servers-AreListeners [] c.servers (λ a servers h. cc h))
start_groups-AreListeners unreadable groups e = cc
start_groups-AreListeners (bad_config x) groups e = cc
start_groups-AreListeners (duplicate k) groups e = cc
start_groups-AreListeners out_of_time groups e = cc

-- Every listener that the program starts has a server, so `self.configs[0]` is there, and only
-- servers of the listener's address.
pub main-AreListeners :
    (u : Unicode) (read : Text → Option Text) (args : List Text)
    {groups : List (Text × List ServerConfig)}
    → main u read args ≡ started groups
    → AreListeners groups
unfolding main
main-AreListeners u read args {groups} e =
    start_groups-AreListeners (from_file u (read (config_path args))) groups e
