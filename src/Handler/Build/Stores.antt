-- ===== src/Handler/Build/Stores.antt =====
-- Files and scripts leave the sessions as they are.
use localserver.Base.{
  ◌≡◌, ap, sym, ◌∷◌, ◌++◌, Option-cases, Bool-cases, inl, inr, Outcome, done, >>=-eq-done,
}
use localserver.Std.Text.{Unicode}
use localserver.Config.Data.{Location, ServerConfig}
use localserver.Request.Message.{Method, Request}
use localserver.Response.{Response}
use localserver.Cgi.Run.{Processes, run}
use localserver.Handler.World.{FileSystem, Moment, World}
use localserver.Handler.Route.{match_location, is_method_allowed, strip_location_prefix}
use localserver.Handler.Files.{handle_post, handle_delete}
use localserver.Handler.Build.{on_disk, by_method, script_for, handle_at, handle_with_route}

module _ (u : Unicode) (fs : FileSystem) (system : Processes) (m : Moment) (config : ServerConfig)
    (req : Request) (w : World fs) where
  -- If there is an answer, the sessions are as they were.
  abbrev pub KeepsStore : Outcome (Response × World fs) → Type 0
  KeepsStore o = (r : Response) (after : World fs) → o ≡ done (r, after) → after.store ≡ w.store

  pub same_world : (x : Response) → KeepsStore (done (x, w))
  same_world x r after e = let same : w ≡ after = cc in ap (λ (v : World fs). v.store) (sym same)

  on_disk-KeepsStore : (p : Response × fs.Disk) → KeepsStore (on_disk u fs system m config p w)
  unfolding on_disk
  on_disk-KeepsStore (x, disk) r after e =
      let same : record w { disk = disk } ≡ after = cc in ap (λ (v : World fs). v.store) (sym same)

  by_method-KeepsStore :
      (method : Method) (loc : Location)
      → KeepsStore (by_method u fs system m config method req loc w)
  unfolding by_method
  by_method-KeepsStore Method.get loc = same_world _
  by_method-KeepsStore Method.post loc =
      on_disk-KeepsStore (handle_post fs w.disk req loc.root config)
  by_method-KeepsStore Method.delete loc =
      on_disk-KeepsStore (handle_delete fs w.disk req loc.root config)
  by_method-KeepsStore (Method.unknown word) loc = same_world _

  handle_at-KeepsStore : (loc : Location) → KeepsStore (handle_at u fs system m config req loc w)
  unfolding handle_at
  handle_at-KeepsStore loc = elim (Bool-cases (is_method_allowed req.method loc)) [
    | inr denied ↦ rw (handle_at, denied) (same_world _)
    | inl allowed ↦ elim (Option-cases (script_for u fs system m config req.method req loc)) [
      | inl no_script ↦ rw (handle_at, allowed, no_script) (by_method-KeepsStore req.method loc)
      | inr (cgi, script) ↦
          rw (handle_at, allowed, script)
            (λ r after e.
              let (x, ran, e1) =
                >>=-eq-done
                  (run u system cgi.interpreter
                    (loc.root ++ b'/' ∷ strip_location_prefix req.path loc.path) req)
                  _ e in
              same_world x r after e1)
    ]
  ]

  pub handle_with_route-KeepsStore : KeepsStore (handle_with_route u fs system m config req w)
  unfolding handle_with_route
  handle_with_route-KeepsStore = elim (Option-cases (match_location req.path config)) [
    | inl nowhere ↦ rw (handle_with_route, nowhere) (same_world _)
    | inr (loc, found) ↦ rw (handle_with_route, found) (handle_at-KeepsStore loc)
  ]
