-- ===== src/Handler/Build/Upload.antt =====
-- `build_response` on the paths of files: uploads, and what is served and deleted.
use mathlib.Core.Option
use mathlib.Core.Path.{subst}
use localserver.Base.{◌≡◌, refl, sym, ap, ◌∙◌, true, false, none, some, done, is_empty}
use localserver.Std.Text.{Text, chars, text_eq, Unicode}
use localserver.Config.Data.{Location, ServerConfig}
use localserver.Request.Message.{Method, Request}
use localserver.Response.{Response, okay, not_found, new}
use localserver.Cgi.Run.{Processes}
use localserver.Handler.World.{FileSystem, Moment, World}
use localserver.Handler.Route.{match_location, is_method_allowed, find_cgi}
use localserver.Handler.Files.{
  get_content_type, trim_slashes, error_response, serve_file, handle_post, handle_delete,
}
use localserver.Handler.Files.Stored.{IsFileSystem, handle_post-stored, handle_delete-gone}
use localserver.Handler.Build.{
  on_disk, by_method, script_for, handle_at, handle_with_route, session_route, build_response,
}

-- A path that the configuration leaves to a location's files: no page of the server's own, no
-- redirect and no script.
pub record IsFilePath (config : ServerConfig) (path : Text) (loc : Location) : Type 0 where
  pub found : match_location path config ≡ some loc
  pub stays : Option.bind (match_location path config) (λ (l : Location). l.redirect) ≡ none
  pub no_script : find_cgi path loc ≡ none
  pub no_login : text_eq path (chars "/login") ≡ false
  pub no_logout : text_eq path (chars "/logout") ≡ false
  pub no_whoami : text_eq path (chars "/whoami") ≡ false

module _ (u : Unicode) (fs : FileSystem) (system : Processes) (config : ServerConfig)
    (loc : Location) where
  build_response-route :
      (m : Moment) (req : Request) (w : World fs)
      → IsFilePath config req.path loc
      → build_response u fs system m config req w ≡ handle_at u fs system m config req loc w
  unfolding build_response session_route handle_with_route
  build_response-route m req w file =
      rw
        (
          build_response, file.stays, session_route, file.no_login, file.no_logout, file.no_whoami,
          handle_with_route, file.found,
        )
        refl

  -- A request without a script is answered by its method.
  build_response-by_method :
      (m : Moment) (req : Request) (w : World fs) (method : Method)
      → IsFilePath config req.path loc
      → req.method ≡ method
      → is_method_allowed method loc ≡ true
      → script_for u fs system m config method req loc ≡ none
      → build_response u fs system m config req w ≡ by_method u fs system m config method req loc w
  unfolding handle_at
  build_response-by_method m req w method file is_method allowed no_script =
      let may : is_method_allowed req.method loc ≡ true =
        ap (λ x. is_method_allowed x loc) is_method ∙ allowed in
      let plain : script_for u fs system m config req.method req loc ≡ none =
        ap (λ x. script_for u fs system m config x req loc) is_method ∙ no_script in
      build_response-route m req w file
      ∙ rw (handle_at, may, plain) (ap (λ x. by_method u fs system m config x req loc w) is_method)

  pub build_response-get :
      (m : Moment) (req : Request) (w : World fs)
      → IsFilePath config req.path loc
      → req.method ≡ Method.get
      → is_method_allowed Method.get loc ≡ true
      → build_response u fs system m config req w
        ≡ done (serve_file fs w.disk req.path loc.root config, w)
  unfolding by_method script_for
  build_response-get m req w file get allowed =
      build_response-by_method m req w Method.get file get allowed file.no_script

  build_response-post :
      (m : Moment) (req : Request) (w : World fs)
      → IsFilePath config req.path loc
      → req.method ≡ Method.post
      → is_method_allowed Method.post loc ≡ true
      → build_response u fs system m config req w
        ≡ on_disk u fs system m config (handle_post fs w.disk req loc.root config) w
  unfolding by_method script_for
  build_response-post m req w file post allowed =
      build_response-by_method m req w Method.post file post allowed file.no_script

  build_response-delete :
      (m : Moment) (req : Request) (w : World fs)
      → IsFilePath config req.path loc
      → req.method ≡ Method.delete
      → is_method_allowed Method.delete loc ≡ true
      → build_response u fs system m config req w
        ≡ on_disk u fs system m config (handle_delete fs w.disk req loc.root config) w
  unfolding by_method script_for
  build_response-delete m req w file delete allowed =
      build_response-by_method m req w Method.delete file delete allowed refl

  on_disk-done :
      (m : Moment) (p : Response × fs.Disk) (w : World fs) {r : Response} {after : World fs}
      → on_disk u fs system m config p w ≡ done (r, after)
      → (p.0 ≡ r) × (p.1 ≡ after.disk)
  unfolding on_disk
  on_disk-done m (x, disk) w {r} {after} e =
      let same : record w { disk = disk } ≡ after = cc in (cc, ap (λ (v : World fs). v.disk) same)

  -- On a file system that keeps what is written, a POST to the path of a file, at which POST and GET
  -- are allowed, that is answered with status 200 is followed, whenever the disk is as it left it, by that body as the answer to a GET.
  pub build_response-uploaded :
      IsFileSystem fs
      → (m later : Moment) (upload fetch : Request) (before after next : World fs) (r : Response)
      → IsFilePath config upload.path loc
      → is_method_allowed Method.post loc ≡ true
      → is_method_allowed Method.get loc ≡ true
      → upload.method ≡ Method.post
      → fetch.method ≡ Method.get
      → fetch.path ≡ upload.path
      → build_response u fs system m config upload before ≡ done (r, after)
      → r.status ≡ okay
      → next.disk ≡ after.disk
      → (is_empty upload.body ≡ false)
        × (build_response u fs system later config fetch next
            ≡ done (new okay (get_content_type upload.path) upload.body, next))
  build_response-uploaded law m later upload fetch before after next r file posts gets post get same
        answered accepted kept =
      let done_with = handle_post fs before.disk upload loc.root config in
      let (was, left) =
        on_disk-done m done_with before
          (sym (build_response-post m upload before file post posts) ∙ answered) in
      let (full, stored) =
        handle_post-stored fs law before.disk upload loc.root config
          (ap (λ (x : Response). x.status) was ∙ accepted) in
      (
        full,
        build_response-get later fetch next (subst (λ p. IsFilePath config p loc) (sym same) file)
              get gets
            ∙ ap (λ x. done (x, next))
                (ap (λ d. serve_file fs d fetch.path loc.root config) (kept ∙ sym left)
                  ∙ ap (λ p. serve_file fs done_with.1 p loc.root config) same
                  ∙ stored),
      )

  -- On a file system that keeps what is written, a DELETE of the path of a file, with no slash at
  -- its end, at which DELETE and GET are allowed, that is answered with status 200 is followed,
  -- whenever the disk is as it left it, by the error page of status 404 as the answer to a GET.
  pub build_response-deleted :
      IsFileSystem fs
      → (m later : Moment) (remove fetch : Request) (before after next : World fs) (r : Response)
      → IsFilePath config remove.path loc
      → is_method_allowed Method.delete loc ≡ true
      → is_method_allowed Method.get loc ≡ true
      → remove.method ≡ Method.delete
      → fetch.method ≡ Method.get
      → fetch.path ≡ remove.path
      → trim_slashes remove.path ≡ remove.path
      → build_response u fs system m config remove before ≡ done (r, after)
      → r.status ≡ okay
      → next.disk ≡ after.disk
      → build_response u fs system later config fetch next
        ≡ done (error_response fs next.disk not_found config, next)
  build_response-deleted law m later remove fetch before after next r file deletes gets delete get
        same plain answered accepted kept =
      let done_with = handle_delete fs before.disk remove loc.root config in
      let (was, left) =
        on_disk-done m done_with before
          (sym (build_response-delete m remove before file delete deletes) ∙ answered) in
      let gone =
        handle_delete-gone fs law before.disk remove loc.root config
          (ap (λ (x : Response). x.status) was ∙ accepted) plain in
      build_response-get later fetch next (subst (λ p. IsFilePath config p loc) (sym same) file) get
        gets
      ∙ ap (λ x. done (x, next))
          (ap (λ d. serve_file fs d fetch.path loc.root config) (kept ∙ sym left)
            ∙ ap (λ p. serve_file fs done_with.1 p loc.root config) same
            ∙ gone
            ∙ ap (λ d. error_response fs d not_found config) (left ∙ sym kept))
