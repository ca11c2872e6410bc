-- ===== src/Config/Written/Locations.antt =====
-- `parse_location` on a location block as it is written.
use mathlib.Core.Path.{subst}
use localserver.Base.{
  ℕ, zero, suc, ◌≡◌, refl, sym, Bool, true, false, Option, none, some, List, [], ◌∷◌, ◌++◌,
  append_assoc, append-nil, is_empty,
}
use localserver.Std.Text.{Text, chars, text_eq}
use localserver.Config.Data.{ConfigMethod, Cgi, Location}
use localserver.Config.Tokenizer.{TokenKind, word, lbrace, rbrace, semicolon}
use localserver.Config.Parser.State.{◌>>=◌, ◌>>◌, pure, expect_word, expect}
use localserver.Config.Parser.Location.{
  method_of, methods_loop, autoindex_of, parse_interpreter, location_directive, location_loop,
  finish_location, parse_location,
}
use localserver.Config.Written.{
  Part, directive, optional, each, method_word, switch, cgi_part, location_body,
}
use localserver.Config.Written.Reads.{
  Reads, pure-Reads, bind-Reads, left-Next, expect_word-Reads, expect-Reads,
}

method_of-Reads :
    (m : ConfigMethod) (ks : List TokenKind) → Reads (method_of (method_word m)) ks ks m
unfolding method_of text_eq
method_of-Reads ConfigMethod.get ks = pure-Reads ConfigMethod.get ks
method_of-Reads ConfigMethod.post ks = pure-Reads ConfigMethod.post ks
method_of-Reads ConfigMethod.delete ks = pure-Reads ConfigMethod.delete ks

autoindex_of-Reads : (b : Bool) (ks : List TokenKind) → Reads (autoindex_of (switch b)) ks ks b
unfolding autoindex_of text_eq
autoindex_of-Reads true ks = pure-Reads true ks
autoindex_of-Reads false ks = pure-Reads false ks

abbrev methods_part : List ConfigMethod → Part
methods_part = each (λ m ls. word (method_word m) ∷ ls)

methods_loop-Reads :
    (fuel : ℕ) (acc ms : List ConfigMethod) (ks : List TokenKind)
    → Reads (methods_loop fuel acc) (methods_part ms (semicolon ∷ ks)) (semicolon ∷ ks) (acc ++ ms)
unfolding methods_loop
methods_loop-Reads zero acc ms ks = record { reads = λ p e. tt }
methods_loop-Reads (suc fuel) acc [] ks = record {
  reads = λ p e.
      let next = left-Next p e in
      rw (methods_loop, next.here, next.is_kind) (sym (append-nil acc), e);
}
methods_loop-Reads (suc fuel) acc (m ∷ ms) ks = record {
  reads = λ p e.
      let next = left-Next p e in
      let more =
        subst
          (Reads (methods_loop fuel (acc ++ m ∷ [])) (methods_part ms (semicolon ∷ ks))
            (semicolon ∷ ks))
          (append_assoc acc (m ∷ []) ms) (methods_loop-Reads fuel (acc ++ m ∷ []) ms ks) in
      rw (methods_loop, next.here, next.is_kind)
        ((bind-Reads _ (expect_word-Reads (method_word m) _)
            (bind-Reads _ (method_of-Reads m _) more)).reads
          p e);
}

parse_interpreter-Reads :
    (ext interp : Text) (ks : List TokenKind)
    → Reads (parse_interpreter ext) (word interp ∷ ks) ks interp
unfolding parse_interpreter
parse_interpreter-Reads ext interp ks = record {
  reads = λ p e.
      let next = left-Next p e in
      rw (parse_interpreter, next.here, next.is_kind) ((expect_word-Reads interp ks).reads p e);
}

-- One word and the semicolon.
pub value-Reads :
    {A : Type 0} (f : Text → A) (w : Text) (ks : List TokenKind)
    → Reads (do v ← expect_word; expect semicolon; pure (f v)) (word w ∷ semicolon ∷ ks) ks (f w)
value-Reads f w ks =
    bind-Reads _ (expect_word-Reads w _) (bind-Reads _ (expect-Reads semicolon _) (pure-Reads _ _))

module _ (rest : List TokenKind) (end : Location × Bool) where
  -- The loop reads the kinds from these variables on.
  abbrev From : Location → List TokenKind → Type 0
  From loc ls = (fuel : ℕ) → Reads (location_loop fuel loc) ls rest end

  location_loop-directive :
      (name : Text) (loc after : Location) (ls ks : List TokenKind)
      → ((fuel : ℕ) → Reads (location_directive fuel name loc) ls ks after)
      → From after ks
      → From loc (word name ∷ ls)
  unfolding location_loop
  location_loop-directive name loc after ls ks one more zero = record { reads = λ p e. tt }
  location_loop-directive name loc after ls ks one more (suc fuel) = record {
    reads = λ p e.
        let next = left-Next p e in
        rw (location_loop, next.here, next.is_kind)
          ((bind-Reads _ (expect_word-Reads name ls) (bind-Reads _ (one fuel) (more fuel))).reads p
            e);
  }

  root-From :
      (loc : Location) (w : Text) (ks : List TokenKind)
      → From (record loc { root = w }) ks
      → From loc (directive "root" w ks)
  unfolding location_directive text_eq
  root-From loc w ks =
      location_loop-directive (chars "root") loc _ _ ks
        (λ fuel. value-Reads (λ v. record loc { root = v }) w ks)

  index-From :
      (loc : Location) (o : Option Text) (ks : List TokenKind)
      → From (record loc { index = o }) ks
      → From (record loc { index = none }) (optional "index" o ks)
  unfolding location_directive text_eq
  index-From loc none ks = λ more. more
  index-From loc (some w) ks =
      location_loop-directive (chars "index") (record loc { index = none }) _ _ ks
        (λ fuel. value-Reads (λ v. record loc { index = some v }) w ks)

  methods-From :
      (loc : Location) (ms : List ConfigMethod) (ks : List TokenKind)
      → From (record loc { methods = ms }) ks
      → From
          (record loc { methods = [] })
          (word (chars "methods") ∷ methods_part ms (semicolon ∷ ks))
  unfolding location_directive text_eq
  methods-From loc ms ks =
      location_loop-directive (chars "methods") (record loc { methods = [] }) _ _ ks
        (λ fuel.
          bind-Reads _ (methods_loop-Reads fuel [] ms ks)
            (bind-Reads _ (expect-Reads semicolon ks) (pure-Reads _ ks)))

  autoindex-From :
      (loc : Location) (b : Bool) (ks : List TokenKind)
      → From (record loc { autoindex = b }) ks
      → From loc (directive "autoindex" (switch b) ks)
  unfolding location_directive text_eq
  autoindex-From loc b ks = location_loop-directive (chars "autoindex") loc _ _ ks (λ fuel.
      bind-Reads _ (expect_word-Reads (switch b) (semicolon ∷ ks)) (
        bind-Reads _ (autoindex_of-Reads b (semicolon ∷ ks))
          (bind-Reads _ (expect-Reads semicolon ks) (pure-Reads _ ks))))

  redirect-From :
      (loc : Location) (o : Option Text) (ks : List TokenKind)
      → From (record loc { redirect = o }) ks
      → From (record loc { redirect = none }) (optional "redirect" o ks)
  unfolding location_directive text_eq
  redirect-From loc none ks = λ more. more
  redirect-From loc (some w) ks =
      location_loop-directive (chars "redirect") (record loc { redirect = none }) _ _ ks
        (λ fuel. value-Reads (λ v. record loc { redirect = some v }) w ks)

  cgi-From :
      (loc : Location) (o : Option Cgi) (ks : List TokenKind)
      → From (record loc { cgi = o }) ks
      → From (record loc { cgi = none }) (cgi_part o ks)
  unfolding location_directive text_eq
  cgi-From loc none ks = λ more. more
  cgi-From loc (some c) ks =
      location_loop-directive (chars "cgi") (record loc { cgi = none }) _ _ ks
        (λ fuel.
          bind-Reads _ (expect_word-Reads c.extension (word c.interpreter ∷ semicolon ∷ ks)) (
            bind-Reads _ (parse_interpreter-Reads c.extension c.interpreter (semicolon ∷ ks))
              (bind-Reads _ (expect-Reads semicolon ks) (pure-Reads _ ks))))

location_loop-end : (loc : Location) (ks : List TokenKind) → From ks (loc, true) loc (rbrace ∷ ks)
unfolding location_loop
location_loop-end loc ks zero = record { reads = λ p e. tt }
location_loop-end loc ks (suc fuel) = record {
  reads = λ p e.
      let next = left-Next p e in rw (location_loop, next.here, next.is_kind) (refl, next.after);
}

finish_location-Reads :
    (loc : Location) (ks : List TokenKind)
    → is_empty loc.path ≡ false
    → Reads (finish_location (loc, true)) ks ks loc
unfolding finish_location
finish_location-Reads loc ks some_path = rw some_path (pure-Reads loc ks)

-- A location block behind its first word is read as the location.
pub parse_location-Reads :
    (fuel : ℕ) (loc : Location) (ks : List TokenKind)
    → is_empty loc.path ≡ false
    → Reads (parse_location fuel) (location_body loc ks) ks loc
unfolding parse_location
parse_location-Reads fuel loc ks some_path =
    let end : Location × Bool = (loc, true) in
    let a : Location = record loc { cgi = none } in
    let b : Location = record a { redirect = none } in
    let c : Location = record b { autoindex = false } in
    let d : Location = record c { methods = [] } in
    let e : Location = record d { index = none } in
    let whole =
      root-From ks end (record e { root = [] }) loc.root _
        (index-From ks end d loc.index _ (
          methods-From ks end c loc.methods _ (
            autoindex-From ks end c loc.autoindex _ (
              redirect-From ks end a loc.redirect _
                (cgi-From ks end loc loc.cgi _ (location_loop-end loc ks)))))) in
    bind-Reads _ (expect_word-Reads loc.path _) (
      bind-Reads _ (expect-Reads lbrace _)
        (bind-Reads _ (whole fuel) (finish_location-Reads loc ks some_path)))
