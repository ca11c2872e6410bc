-- ===== src/Handler/Files.antt =====
-- src/handler.rs: `error_response`, `serve_directory`, `serve_file`, `handle_post`,
-- `handle_delete` and `get_content_type`.
pub mod Stored
use mathlib.Core.Option
use localserver.Base.{ℕ, Bool, true, false, Option, none, some, ◌++◌, if◌then◌else◌, ◌==◌, is_empty}
use localserver.Std.Text.{Text, Bytes, chars, ends_with, trim_end_matches}
use localserver.Std.Utf8.{into_bytes}
use localserver.Std.Map
use localserver.Std.Keys.{number_key}
use localserver.Config.Data.{Location, ServerConfig}
use localserver.Request.Message.{Request}
use localserver.Response.{
  StatusCode, okay, bad_request, forbidden, not_found, method_not_allowed, content_too_large,
  internal_server_error, Response, new, error,
}
use localserver.Handler.Route.{match_location}
use localserver.Handler.Listing.{listing_page, parent}
use localserver.Handler.World.{FileSystem}

unfoldable pub get_content_type : Text → Text
get_content_type path =
    if ends_with path (chars ".html")
    then chars "text/html"
    else if ends_with path (chars ".css")
    then chars "text/css"
    else if ends_with path (chars ".js")
    then chars "application/javascript"
    else if ends_with path (chars ".png")
    then chars "image/png"
    else if ends_with path (chars ".jpg")
    then chars "image/jpeg"
    else if ends_with path (chars ".json")
    then chars "application/json"
    else if ends_with path (chars ".txt")
    then chars "text/plain"
    else chars "application/octet-stream"

unfoldable pub status_number : StatusCode → ℕ
status_number okay = 200
status_number bad_request = 400
status_number forbidden = 403
status_number not_found = 404
status_number method_not_allowed = 405
status_number content_too_large = 413
status_number internal_server_error = 500

abbrev pub trim_slashes : Text → Text
trim_slashes = trim_end_matches (λ c. c == b'/')

module _ (fs : FileSystem) where
  -- The page that the configuration names for a status, if it can be read.
  unfoldable pub custom_page : fs.Disk → StatusCode → ServerConfig → Option Bytes
  unfolding status_number
  custom_page disk okay config = none
  custom_page disk status config =
      Option.bind (Map.get config.error_pages (status_number status)) (λ page. fs.read disk page)

  unfoldable pub error_response : fs.Disk → StatusCode → ServerConfig → Response
  unfolding custom_page
  error_response disk status config = elim (custom_page disk status config) [
    | some contents ↦ new status (chars "text/html") contents
    | none ↦ error status
  ]

  unfoldable pub serve_directory : fs.Disk → Text → Text → ServerConfig → Response
  serve_directory disk url dir config =
      if Option.get_or (Option.map (λ (l : Location). l.autoindex) (match_location url config))
        false
      then (elim (fs.read_dir disk dir) [
        | none ↦ error_response disk internal_server_error config
        | some entries ↦ new okay (chars "text/html") (into_bytes (listing_page url entries))
      ])
      else error_response disk forbidden config

  -- `metadata`, tried again without the slashes at the end.
  unfoldable pub find_meta : fs.Disk → Text → Text → Option Bool
  find_meta disk root path = elim (fs.is_dir disk (root ++ path)) [
    | some dir ↦ some dir
    | none ↦ fs.is_dir disk (root ++ trim_slashes path)
  ]

  unfoldable pub serve_found : fs.Disk → Bool → Text → Text → ServerConfig → Response
  unfolding serve_directory get_content_type
  serve_found disk true path file config =
      elim (fs.read disk (trim_slashes file ++ chars "/index.html")) [
        | some contents ↦ new okay (chars "text/html") contents
        | none ↦ serve_directory disk path file config
      ]
  serve_found disk false path file config = elim (fs.read disk file) [
    | some contents ↦ new okay (get_content_type path) contents
    | none ↦ error_response disk not_found config
  ]

  unfoldable pub serve_file : fs.Disk → Text → Text → ServerConfig → Response
  unfolding find_meta serve_found error_response
  serve_file disk path root config = elim (find_meta disk root path) [
    | none ↦ error_response disk not_found config
    | some dir ↦ serve_found disk dir path (root ++ path) config
  ]

  -- The directories above the file, if there is one to make.
  unfoldable pub make_parent : fs.Disk → Text → fs.Disk × Bool
  make_parent disk file = elim (parent file) [
    | none ↦ (disk, true)
    | some dir ↦ fs.create_dir_all disk dir
  ]

  unfoldable pub uploaded_page : Text → Bytes
  uploaded_page path =
      into_bytes (chars "<html><body><h1>Uploaded to " ++ (path ++ chars "</h1></body></html>"))

  unfoldable pub write_file : fs.Disk × Bool → Request → Text → ServerConfig → Response × fs.Disk
  write_file (disk, false) req file config =
      (error_response disk internal_server_error config, disk)
  write_file (disk, true) req file config =
      let (after, done) = fs.write disk file req.body in
      if done
      then (new okay (chars "text/html") (uploaded_page req.path), after)
      else (error_response after internal_server_error config, after)

  unfoldable pub handle_post : fs.Disk → Request → Text → ServerConfig → Response × fs.Disk
  unfolding make_parent write_file uploaded_page error_response
  handle_post disk req root config =
      if is_empty req.body
      then (error_response disk bad_request config, disk)
      else write_file (make_parent disk (root ++ req.path)) req (root ++ req.path) config

  unfoldable pub handle_delete : fs.Disk → Request → Text → ServerConfig → Response × fs.Disk
  unfolding error_response
  handle_delete disk req root config =
      let (after, done) = fs.remove_file disk (root ++ req.path) in
      if done
      then (
        new okay (chars "text/html") (
            into_bytes
              (chars "<html><body><h1>Deleted " ++ (req.path ++ chars "</h1></body></html>"))),
        after,
      )
      else (error_response after not_found config, after)
