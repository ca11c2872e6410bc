-- ===== src/Config/Load/Differ.antt =====
-- src/config/mod.rs: the start-up check by the parts of a server's key.
use mathlib.Core.Option
use localserver.Base.{ℕ, ◌<◌, ◌≡◌, ◌↔◌, refl, sym, ap, ◌∙◌, true, List, [], ◌∷◌, ◌++◌, arith, all}
use localserver.Std.Text.{Text, split_once}
use localserver.Std.Text.Position.{without}
use localserver.Std.Text.Split.{split_once-append}
use localserver.Std.Number.{
  IsRadix, is_hex, to_string, to_string_radix-hex, from_str_radix, from_str_radix-to_string,
  u16_bound,
}
use localserver.Config.Data.{ServerConfig, Config}
use localserver.Config.Load.{server_key, loaded, validate}
use localserver.Config.Load.Unique.{Fresh, AllFresh, validate-loaded}

abbrev name_of : ServerConfig → Text
name_of s = Option.get_or s.server_name []

-- The same host, port and name; no name is the empty one.
abbrev pub Same : ServerConfig → ServerConfig → Type 0
Same s t = (s.host ≡ t.host) × (s.port ≡ t.port) × (name_of s ≡ name_of t)

-- A host without a colon, and a port of 16 bits.
abbrev pub IsPlain : ServerConfig → Type 0
IsPlain s = (without b':' s.host ≡ true) × (s.port < u16_bound)

abbrev pub AllPlain : List ServerConfig → Type 0
AllPlain [] = Unit
AllPlain (s ∷ servers) = IsPlain s × AllPlain servers

decimal : IsRadix 10
decimal = (omega arith, omega arith)

hex-no_colon : (s : Text) → all is_hex s ≡ true → without b':' s ≡ true
hex-no_colon [] h = refl
hex-no_colon (c ∷ s) h = ground (arith, hex-no_colon s)

to_string-no_colon : (n : ℕ) → without b':' (to_string n) ≡ true
to_string-no_colon n = hex-no_colon (to_string n) (to_string_radix-hex 10 u16_bound decimal n)

to_string-injective : (m n : ℕ) → m < u16_bound → n < u16_bound → to_string m ≡ to_string n → m ≡ n
to_string-injective m n small_m small_n e =
    let back_m = from_str_radix-to_string 10 u16_bound decimal m small_m in
    let back_n = from_str_radix-to_string 10 u16_bound decimal n small_n in
    let read = ap (from_str_radix 10 u16_bound) e in cc

-- What stands before and behind the first colon is read off the whole.
parts :
    (a b x y : Text)
    → without b':' a ≡ true
    → without b':' b ≡ true
    → a ++ b':' ∷ x ≡ b ++ b':' ∷ y
    → (a ≡ b) × (x ≡ y)
parts a b x y plain_a plain_b e =
    let cut_a = split_once-append a b':' x plain_a in
    let cut_b = split_once-append b b':' y plain_b in
    let cuts = ap (split_once b':') e in
    let same : ◌≡◌ {A = Text × Text} (a, x) (b, y) = cc in
    (ap (λ (p : Text × Text). p.0) same, ap (λ (p : Text × Text). p.1) same)

server_key-Same :
    (s t : ServerConfig) → IsPlain s → IsPlain t → (server_key s ≡ server_key t) ↔ Same s t
unfolding server_key
server_key-Same s t (hs, ps) (ht, pt) = (
  λ e.
      let (hosts, rest) = parts s.host t.host _ _ hs ht e in
      let (ports, names) =
        parts (to_string s.port) (to_string t.port) (name_of s) (name_of t)
          (to_string-no_colon s.port) (to_string-no_colon t.port) rest in
      (hosts, to_string-injective s.port t.port ps pt ports, names),
  λ (hosts, ports, names).
      ap (λ h. h ++ b':' ∷ (to_string s.port ++ b':' ∷ name_of s)) hosts
      ∙ ap (λ p. t.host ++ b':' ∷ (to_string p ++ b':' ∷ name_of s)) ports
      ∙ ap (λ n. t.host ++ b':' ∷ (to_string t.port ++ b':' ∷ n)) names,
)

-- A server that agrees with none of these in all three.
abbrev pub DiffersFrom : ServerConfig → List ServerConfig → Type 0
DiffersFrom s [] = Unit
DiffersFrom s (t ∷ servers) = (Same s t → ⊥) × DiffersFrom s servers

-- No two servers agree in all three.
abbrev pub AllDiffer : List ServerConfig → Type 0
AllDiffer [] = Unit
AllDiffer (s ∷ servers) = DiffersFrom s servers × AllDiffer servers

keys : List ServerConfig → List Text
keys [] = []
keys (s ∷ servers) = server_key s ∷ keys servers

-- Servers behind others, each of which differs from the others before.
abbrev Behind : List ServerConfig → List ServerConfig → Type 0
Behind earlier [] = Unit
Behind earlier (s ∷ servers) = DiffersFrom s earlier × Behind earlier servers

Fresh-DiffersFrom :
    (s : ServerConfig) (earlier : List ServerConfig)
    → IsPlain s
    → AllPlain earlier
    → Fresh (server_key s) (keys earlier) ↔ DiffersFrom s earlier
unfolding keys
Fresh-DiffersFrom s [] plain all_plain = (λ _. tt, λ _. tt)
Fresh-DiffersFrom s (t ∷ earlier) plain (plain_t, all_plain) =
    let key = server_key-Same s t plain plain_t in
    let rest = Fresh-DiffersFrom s earlier plain all_plain in
    (
      λ (new, later). (λ same. new (key.1 same), rest.0 later),
      λ (differs, later). (λ e. differs (key.0 e), rest.1 later),
    )

Same-sym : (s t : ServerConfig) → Same s t → Same t s
Same-sym s t (h, p, n) = (sym h, sym p, sym n)

Behind-cons :
    (s : ServerConfig) (earlier servers : List ServerConfig)
    → Behind (s ∷ earlier) servers ↔ (DiffersFrom s servers × Behind earlier servers)
Behind-cons s earlier [] = (λ _. (tt, tt), λ _. tt)
Behind-cons s earlier (t ∷ servers) =
    let rest = Behind-cons s earlier servers in
    (
      λ ((first, others), later).
          let (differs, behind) = rest.0 later in
          ((λ same. first (Same-sym s t same), differs), (others, behind)),
      λ ((first, differs), (others, behind)).
          ((λ same. first (Same-sym t s same), others), rest.1 (differs, behind)),
    )

AllFresh-AllDiffer :
    (earlier servers : List ServerConfig)
    → AllPlain earlier
    → AllPlain servers
    → AllFresh (keys earlier) servers ↔ (Behind earlier servers × AllDiffer servers)
unfolding keys
AllFresh-AllDiffer earlier [] before plain = (λ _. (tt, tt), λ _. tt)
AllFresh-AllDiffer earlier (s ∷ servers) before (plain_s, plain) =
    let here = Fresh-DiffersFrom s earlier plain_s before in
    let rest = AllFresh-AllDiffer (s ∷ earlier) servers (plain_s, before) plain in
    let split = Behind-cons s earlier servers in
    (
      λ (new, later).
          let (behind, differ) = rest.0 later in
          let (from_s, from_earlier) = split.0 behind in
          ((here.0 new, from_earlier), (from_s, differ)),
      λ ((new, from_earlier), (from_s, differ)).
          (here.1 new, rest.1 (split.1 (from_s, from_earlier), differ)),
    )

Behind-none : (servers : List ServerConfig) → Behind [] servers
Behind-none [] = tt
Behind-none (s ∷ servers) = (tt, Behind-none servers)

-- If no host has a colon and ports have 16 bits, a configuration is accepted exactly if no two of its
-- servers have the same host, port and name, where no name counts as the empty one.
pub validate-AllDiffer :
    (c : Config) → AllPlain c.servers → (validate c ≡ loaded c) ↔ AllDiffer c.servers
unfolding keys
validate-AllDiffer c plain =
    let unique = validate-loaded c in
    let differ = AllFresh-AllDiffer [] c.servers tt plain in
    (
      λ accepted. (differ.0 (unique.0 accepted)).1,
      λ different. unique.1 (differ.1 (Behind-none c.servers, different)),
    )
