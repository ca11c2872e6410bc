-- ===== src/Request/Message/Format.antt =====
-- A request as a client writes it, and the parts that the parser reads of it.
use localserver.Base.{
  ℕ, ◌≡◌, refl, ap, ◌∙◌, true, false, some, List, [], ◌∷◌, ◌++◌, arith, all-append, is_empty, ◌==◌,
  ==_iff, Bool-cases, inl, inr,
}
use localserver.Std.Text.{
  Text, Bytes, trim, trim_start_matches, is_whitespace, Unicode, to_lowercase,
}
use localserver.Std.Text.Trim.{none_match, trim-none}
use localserver.Std.Text.Position.{without}
use localserver.Std.Text.Split.{IsWord, space, split_whitespace-words, split_once-append}
use localserver.Std.Text.Lines.{IsLine, AllLines, join_lines, separator}
use localserver.Std.Utf8.{is_ascii}
use localserver.Std.Map.{insert}
use localserver.Std.Keys.{text_key}
use localserver.Request.Message.{Dict, parse_method, parse_request_line, add_header, parse_headers}

abbrev pub request_line : Text → Text → Text → Text
request_line m p v = m ++ space ∷ (p ++ space ∷ v)

abbrev pub header_line : Text × Text → Text
header_line h = h.0 ++ b':' ∷ space ∷ h.1

pub record IsHeader (h : Text × Text) : Type 0 where
  pub key_word : IsWord h.0
  pub key_no_colon : without b':' h.0 ≡ true
  pub key_ascii : is_ascii h.0 ≡ true
  pub value_trimmed : trim h.1 ≡ h.1
  pub value_no_cr : without b'\r' h.1 ≡ true
  pub value_no_lf : without b'\n' h.1 ≡ true
  pub value_ascii : is_ascii h.1 ≡ true

abbrev pub AllHeaders : Dict → Type 0
AllHeaders [] = Unit
AllHeaders (h ∷ hs) = IsHeader h × AllHeaders hs

abbrev pub header_lines : Dict → List Text
header_lines [] = []
header_lines (h ∷ hs) = header_line h ∷ header_lines hs

-- The bytes of a request.
unfoldable pub format_request : Text → Text → Text → Dict → Bytes → Bytes
format_request m p v hs body =
    join_lines (request_line m p v) (header_lines hs) ++ (separator ++ body)

-- The headers with lower-case keys, a later value in place of an earlier one.
unfoldable pub lower_headers : Unicode → Dict → Dict → Dict
lower_headers u d [] = d
lower_headers u d (h ∷ hs) = lower_headers u (insert d (to_lowercase u h.0) h.1) hs

not_space-ne : (c d : ℕ) → is_whitespace d ≡ true → is_whitespace c ≡ false → (c == d) ≡ false
not_space-ne c d h k = elim (Bool-cases (c == d)) [ inl e ↦ cc ((==_iff c d).0 e) | inr e ↦ e ]

-- A text without white space lies on one line.
word-one_line :
    (s : Text)
    → none_match is_whitespace s ≡ true
    → (without b'\r' s ≡ true) × (without b'\n' s ≡ true)
word-one_line [] h = (refl, refl)
word-one_line (c ∷ s) h = ground (
  arith,
  not_space-ne c b'\r' (unfold is_whitespace in refl),
  not_space-ne c b'\n' (unfold is_whitespace in refl),
  word-one_line s,
)

is_empty-append : (s t : Text) → is_empty s ≡ false → is_empty (s ++ t) ≡ false
is_empty-append [] t h = cc
is_empty-append (c ∷ s) t h = refl

pub request_line-IsLine :
    (m p v : Text) → IsWord m → IsWord p → IsWord v → IsLine (request_line m p v)
request_line-IsLine m p v hm hp hv =
    let lm = word-one_line m hm.no_space in
    let lp = word-one_line p hp.no_space in
    let lv = word-one_line v hv.no_space in
    record {
      some_char = is_empty-append m _ hm.some_char;
      no_cr = all-append _ m _ lm.0 (all-append _ p (space ∷ v) lp.0 lv.0);
      no_lf = all-append _ m _ lm.1 (all-append _ p (space ∷ v) lp.1 lv.1);
    }

header_line-IsLine : (h : Text × Text) → IsHeader h → IsLine (header_line h)
header_line-IsLine h k =
    let line = word-one_line h.0 k.key_word.no_space in
    record {
      some_char = is_empty-append h.0 _ k.key_word.some_char;
      no_cr = all-append _ h.0 (b':' ∷ space ∷ h.1) line.0 k.value_no_cr;
      no_lf = all-append _ h.0 (b':' ∷ space ∷ h.1) line.1 k.value_no_lf;
    }

pub header_lines-AllLines : (hs : Dict) → AllHeaders hs → AllLines (header_lines hs)
header_lines-AllLines [] k = tt
header_lines-AllLines (h ∷ hs) (k, ks) = (header_line-IsLine h k, header_lines-AllLines hs ks)

pub trim-space : (s : Text) → trim (space ∷ s) ≡ trim s
unfolding trim trim_start_matches is_whitespace
trim-space s = refl

-- A header's line is read as the header, with its key in lower case.
add_header-header_line :
    (u : Unicode) (d : Dict) (h : Text × Text)
    → IsHeader h
    → add_header u d (header_line h) ≡ insert d (to_lowercase u h.0) h.1
unfolding add_header
add_header-header_line u d h k = rw (
  split_once-append h.0 b':' (space ∷ h.1) k.key_no_colon,
  add_header,
  trim-none h.0 k.key_word.no_space,
  trim-space h.1,
  k.value_trimmed,
)

pub parse_headers-header_lines :
    (u : Unicode) (d : Dict) (hs : Dict)
    → AllHeaders hs
    → parse_headers u d (header_lines hs) ≡ lower_headers u d hs
unfolding parse_headers lower_headers
parse_headers-header_lines u d [] k = refl
parse_headers-header_lines u d (h ∷ hs) (k, ks) =
    ap (λ e. parse_headers u e (header_lines hs)) (add_header-header_line u d h k)
    ∙ parse_headers-header_lines u (insert d (to_lowercase u h.0) h.1) hs ks

pub parse_request_line-words :
    (m p v : Text)
    → IsWord m
    → IsWord p
    → IsWord v
    → parse_request_line (request_line m p v) ≡ some (parse_method m, p, v)
unfolding parse_request_line
parse_request_line-words m p v hm hp hv = rw (split_whitespace-words m p v hm hp hv)
