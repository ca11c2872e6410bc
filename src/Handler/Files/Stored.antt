-- ===== src/Handler/Files/Stored.antt =====
-- What is uploaded is served, and what is deleted is not.
use localserver.Base.{
  ◌≡◌, refl, sym, ◌∙◌, Bool, true, false, none, some, Option-cases, Bool-cases, inl, inr, ◌++◌,
  is_empty,
}
use localserver.Std.Text.{Text, Bytes}
use localserver.Config.Data.{ServerConfig}
use localserver.Request.Message.{Request}
use localserver.Response.{
  StatusCode, okay, bad_request, not_found, internal_server_error, new, error,
}
use localserver.Handler.World.{FileSystem}
use localserver.Handler.Files.{
  get_content_type, trim_slashes, error_response, find_meta, serve_found, serve_file, make_parent,
  write_file, handle_post, handle_delete, custom_page,
}

-- What is documented of the file system: a file that was written is there with its contents, and
-- one that was removed is not.
pub record IsFileSystem (fs : FileSystem) : Type 0 where
  pub write_read :
      (d : fs.Disk) (path : Text) (bytes : Bytes)
      → (fs.write d path bytes).1 ≡ true
      → fs.read (fs.write d path bytes).0 path ≡ some bytes
  pub write_is_dir :
      (d : fs.Disk) (path : Text) (bytes : Bytes)
      → (fs.write d path bytes).1 ≡ true
      → fs.is_dir (fs.write d path bytes).0 path ≡ some false
  pub remove_is_dir :
      (d : fs.Disk) (path : Text)
      → (fs.remove_file d path).1 ≡ true
      → fs.is_dir (fs.remove_file d path).0 path ≡ none

module _ (fs : FileSystem) where
  error_response-status :
      (disk : fs.Disk) (status : StatusCode) (config : ServerConfig)
      → (error_response fs disk status config).status ≡ status
  unfolding error_response new error
  error_response-status disk status config =
      elim (Option-cases (custom_page fs disk status config)) [
        | inl plain ↦ rw (error_response, plain)
        | inr (page, custom) ↦ rw (error_response, custom)
      ]

  serve_file-found :
      (disk : fs.Disk) (path root : Text) (config : ServerConfig) (bytes : Bytes)
      → fs.is_dir disk (root ++ path) ≡ some false
      → fs.read disk (root ++ path) ≡ some bytes
      → serve_file fs disk path root config ≡ new okay (get_content_type path) bytes
  unfolding serve_file
  serve_file-found disk path root config bytes plain contents =
      rw (serve_file, find_meta, plain, serve_found, contents)

  serve_file-missing :
      (disk : fs.Disk) (path root : Text) (config : ServerConfig)
      → fs.is_dir disk (root ++ path) ≡ none
      → trim_slashes path ≡ path
      → serve_file fs disk path root config ≡ error_response fs disk not_found config
  unfolding serve_file
  serve_file-missing disk path root config gone plain =
      rw (serve_file, find_meta, gone, plain, gone) refl

module _ (fs : FileSystem) (law : IsFileSystem fs) (disk : fs.Disk) (req : Request) (root : Text)
    (config : ServerConfig) where
  write_file-stored :
      (made : fs.Disk × Bool)
      → (write_file fs made req (root ++ req.path) config).0.status ≡ okay
      → serve_file fs (write_file fs made req (root ++ req.path) config).1 req.path root config
        ≡ new okay (get_content_type req.path) req.body
  unfolding write_file
  write_file-stored (d, false) e =
      absurd (cc (sym (error_response-status fs d internal_server_error config) ∙ e))
  write_file-stored (d, true) e =
      let file = root ++ req.path in
      elim (Bool-cases (fs.write d file req.body).1) [
        | inl written ↦ rw written (
            serve_file-found fs (fs.write d file req.body).0 req.path root config req.body
              (law.write_is_dir d file req.body written) (law.write_read d file req.body written))
        | inr failed ↦
            let after = (fs.write d file req.body).0 in
            let status = error_response-status fs after internal_server_error config in
            absurd (cc (sym status ∙ (rw (write_file, failed) at e)))
      ]

  -- On a file system that keeps what is written, an upload that is answered with status 200 had a
  -- body, and a GET of the same path under the same root is answered with it, byte for byte, with
  -- the content type of its name.
  pub handle_post-stored :
      (handle_post fs disk req root config).0.status ≡ okay
      → (is_empty req.body ≡ false)
        × (serve_file fs (handle_post fs disk req root config).1 req.path root config
            ≡ new okay (get_content_type req.path) req.body)
  unfolding handle_post
  handle_post-stored e = elim (Bool-cases (is_empty req.body)) [
    | inl empty ↦
        let status = error_response-status fs disk bad_request config in
        absurd (cc (sym status ∙ (rw (handle_post, empty) at e)))
    | inr full ↦ (
      full,
      rw (handle_post, full)
          (write_file-stored (make_parent fs disk (root ++ req.path))
            (rw (handle_post, full) at e)),
    )
  ]

  -- On a file system that keeps what is written, a path with no slash at its end that DELETE answers
  -- with status 200 is answered with the error page of status 404 afterwards.
  pub handle_delete-gone :
      (handle_delete fs disk req root config).0.status ≡ okay
      → trim_slashes req.path ≡ req.path
      → serve_file fs (handle_delete fs disk req root config).1 req.path root config
        ≡ error_response fs (handle_delete fs disk req root config).1 not_found config
  unfolding handle_delete
  handle_delete-gone e plain =
      let file = root ++ req.path in
      let after = (fs.remove_file disk file).0 in
      elim (Bool-cases (fs.remove_file disk file).1) [
        | inl removed ↦ rw removed (
            serve_file-missing fs after req.path root config (law.remove_is_dir disk file removed)
              plain)
        | inr failed ↦
            let status = error_response-status fs after not_found config in
            absurd (cc (sym status ∙ (rw (handle_delete, failed) at e)))
      ]
