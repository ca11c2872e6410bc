-- ===== src/Config/Parser/Location.antt =====
-- src/config/parser.rs: `parse_location`.
use localserver.Base.{
  ℕ, zero, suc, Bool, true, false, none, some, List, [], ◌∷◌, ◌++◌, if◌then◌else◌, is_empty,
}
use localserver.Std.Text.{Text, chars, text_eq}
use localserver.Config.Data.{ConfigMethod, Location}
use localserver.Config.Tokenizer.{word, lbrace, rbrace, semicolon}
use localserver.Config.Parser.State.{
  unknown_method, bad_autoindex, unknown_location_directive, unexpected_in_location,
  unclosed_location, empty_path, ok, out_of_fuel, P, ◌>>=◌, ◌>>◌, pure, fail, peek, advance,
  expect_word, expect,
}

unfoldable pub method_of : Text → P ConfigMethod
method_of m =
    if text_eq m (chars "GET")
    then pure ConfigMethod.get
    else if text_eq m (chars "POST")
    then pure ConfigMethod.post
    else if text_eq m (chars "DELETE")
    then pure ConfigMethod.delete
    else fail (unknown_method m)

-- `while let Some(Token { kind: Word(_), .. }) = self.peek()`
unfoldable pub methods_loop : ℕ → List ConfigMethod → P (List ConfigMethod)
unfolding method_of
methods_loop zero ms p = out_of_fuel
methods_loop (suc fuel) ms p = elim (peek p) [
  | none ↦ ok ms p
  | some t ↦ elim t.kind [
    | word _ ↦ (do m ← expect_word; method ← method_of m; methods_loop fuel (ms ++ method ∷ [])) p
    | _ ↦ ok ms p
  ]
]

unfoldable pub autoindex_of : Text → P Bool
autoindex_of v =
    if text_eq v (chars "on")
    then pure true
    else if text_eq v (chars "off")
    then pure false
    else fail (bad_autoindex v)

unfoldable pub default_interpreter : Text → Text
default_interpreter ext =
    if text_eq ext (chars ".py")
    then chars "python3"
    else if text_eq ext (chars ".php")
    then chars "php"
    else chars "sh"

-- The interpreter is optional.
unfoldable pub parse_interpreter : Text → P Text
unfolding default_interpreter
parse_interpreter ext p = elim (peek p) [
  | none ↦ ok (default_interpreter ext) p
  | some t ↦ elim t.kind [ word _ ↦ expect_word p | _ ↦ ok (default_interpreter ext) p ]
]

-- One directive of a location block. `loc` holds the variables of the loop.
unfoldable pub location_directive : ℕ → Text → Location → P Location
unfolding methods_loop autoindex_of parse_interpreter
location_directive fuel name loc =
    if text_eq name (chars "root")
    then (do w ← expect_word; expect semicolon; pure (record loc { root = w }))
    else if text_eq name (chars "index")
    then (do w ← expect_word; expect semicolon; pure (record loc { index = some w }))
    else if text_eq name (chars "methods")
    then (do
      ms ← methods_loop fuel loc.methods
      expect semicolon
      pure (record loc { methods = ms }))
    else if text_eq name (chars "autoindex")
    then (do
      v ← expect_word
      b ← autoindex_of v
      expect semicolon
      pure (record loc { autoindex = b }))
    else if text_eq name (chars "redirect")
    then (do w ← expect_word; expect semicolon; pure (record loc { redirect = some w }))
    else if text_eq name (chars "cgi")
    then (do
      ext ← expect_word
      interp ← parse_interpreter ext
      expect semicolon
      pure (record loc { cgi = some (record { extension = ext; interpreter = interp }) }))
    else fail (unknown_location_directive name)

-- The loop gives the variables and `closed`.
unfoldable pub location_loop : ℕ → Location → P (Location × Bool)
unfolding location_directive
location_loop zero loc p = out_of_fuel
location_loop (suc fuel) loc p = elim (peek p) [
  | none ↦ ok (loc, false) p
  | some t ↦ elim t.kind [
    | rbrace ↦ ok (loc, true) (advance p)
    | word _ ↦
        (do name ← expect_word; loc' ← location_directive fuel name loc; location_loop fuel loc') p
    | other ↦ fail (unexpected_in_location other) p
  ]
]

abbrev pub new_location : Text → Location
new_location path = record {
  path = path;
  root = [];
  index = none;
  methods = [];
  autoindex = false;
  redirect = none;
  cgi = none;
}

unfoldable pub finish_location : Location × Bool → P Location
finish_location (loc, false) = fail (unclosed_location loc.path)
finish_location (loc, true) = if is_empty loc.path then fail empty_path else pure loc

unfoldable pub parse_location : ℕ → P Location
unfolding location_loop finish_location expect_word expect peek
parse_location fuel = do
  path ← expect_word
  expect lbrace
  end ← location_loop fuel (new_location path)
  finish_location end
