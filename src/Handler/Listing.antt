-- ===== src/Handler/Listing.antt =====
-- src/handler.rs: the page of `serve_directory`.
use mathlib.Core.Option
use mathlib.Core.List.{reverse}
use localserver.Base.{
  ℕ, Bool, true, false, ◌&&◌, ◌||◌, Option, none, some, List, [], ◌∷◌, ◌++◌, if◌then◌else◌, ltb,
  ◌==◌, is_empty,
}
use localserver.Std.Text.{Text, Bytes, chars, text_eq, starts_with, trim_end_matches}
use localserver.Std.Utf8.{from_utf8_lossy}
use localserver.Std.Number.{to_string}
use localserver.Handler.World.{DirEntry}

-- The order of file names, by their bytes.
bytes_lt : Bytes → Bytes → Bool
bytes_lt [] [] = false
bytes_lt [] (b ∷ t) = true
bytes_lt (a ∷ s) [] = false
bytes_lt (a ∷ s) (b ∷ t) = if a == b then bytes_lt s t else ltb a b

insert_entry : DirEntry → List DirEntry → List DirEntry
insert_entry e [] = e ∷ []
insert_entry e (d ∷ ds) =
    let rest = d ∷ insert_entry e ds in if bytes_lt d.name e.name then rest else e ∷ d ∷ ds

-- `sort_by_key` by name, which keeps the order of equal names.
unfoldable pub sort_entries : List DirEntry → List DirEntry
unfolding insert_entry bytes_lt
sort_entries [] = []
sort_entries (e ∷ es) = insert_entry e (sort_entries es)

-- A reversed path without slashes and single dots at its end.
skip_end : Text → Text
skip_end [] = []
skip_end (c ∷ s) =
    if c == b'/' || (c == b'.' && starts_with s (chars "/")) then skip_end s else c ∷ s

skip_component : Text → Text
skip_component [] = []
skip_component (c ∷ s) = if c == b'/' then c ∷ s else skip_component s

-- `Path::parent`
unfoldable pub parent : Text → Option Text
unfolding skip_end skip_component
parent path =
    let shown = skip_end (reverse path) in
    let up = reverse (skip_end (skip_component shown)) in
    if is_empty shown
    then none
    else if starts_with path (chars "/") && is_empty up
    then some (chars "/")
    else some up

unfoldable pub parent_row : Text → Text
unfolding parent
parent_row url =
    if text_eq url (chars "/")
    then []
    else chars "<tr><td><a href='"
      ++ (Option.get_or (parent url) (chars "/")
          ++ chars "/'>..</a></td><td>-</td><td>-</td></tr>\n")

unfoldable pub display_name : Bytes → Bool → Text
display_name name dir = if dir then from_utf8_lossy name ++ chars "/" else from_utf8_lossy name

unfoldable pub size_text : Bool → ℕ → Text
size_text dir size = if dir then chars "-" else to_string size ++ chars " bytes"

unfoldable pub entry_row : Text → DirEntry → Text
unfolding display_name size_text
entry_row url e = elim e.meta [
  | none ↦ []
  | some (dir, size) ↦
      let shown = display_name e.name dir in
      let href = trim_end_matches (λ c. c == b'/') url ++ b'/' ∷ shown in
      chars "<tr><td><a href='"
      ++ (href
          ++ (chars "'>"
              ++ (shown
                  ++ (chars "</a></td><td>" ++ (size_text dir size ++ chars "</td></tr>\n")))))
]

unfoldable pub entry_rows : Text → List DirEntry → Text
unfolding entry_row
entry_rows url [] = []
entry_rows url (e ∷ es) = entry_row url e ++ entry_rows url es

abbrev style : Text
style =
    chars "    <style>\n        body  { font-family: monospace; padding: 2rem; }\n"
    ++ (chars "        h1    { border-bottom: 1px solid #ccc; padding-bottom: 0.5rem; }\n"
        ++ (chars "        table { border-collapse: collapse; width: 100%; }\n"
            ++ (chars "        td    { padding: 0.3rem 1rem; }\n"
                ++ (chars "        tr:hover { background: #f5f5f5; }\n"
                    ++ (chars "        a     { text-decoration: none; color: #0066cc; }\n"
                        ++ chars
                            "        a:hover { text-decoration: underline; }\n    </style>\n")))))

unfoldable pub listing_page : Text → List DirEntry → Text
unfolding parent_row entry_rows sort_entries
listing_page url entries =
    chars "<!DOCTYPE html>\n<html>\n<head>\n    <title>Index of "
    ++ (url
        ++ (chars "</title>\n"
            ++ (style
                ++ (chars "</head>\n<body>\n    <h1>Index of "
                    ++ (url
                        ++ (chars
                              "</h1>\n    <table>\n        <tr><th align='left'>Name</th><th align='left'>Size</th></tr>\n        "
                            ++ ((parent_row url ++ entry_rows url (sort_entries entries))
                                ++ chars "\n    </table>\n</body>\n</html>")))))))
