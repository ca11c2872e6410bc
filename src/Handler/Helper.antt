-- ===== src/Handler/Helper.antt =====
-- src/handler.rs: `handle_with_root`, which answers on a socket by itself, for tests.
use localserver.Base.{◌*◌, false, none, some, [], ◌∷◌, ◌≡◌, refl, Outcome, done, ◌>>=◌}
use localserver.Std.Text.{Text, chars, Unicode}
use localserver.Config.Data.{ServerConfig}
use localserver.Request.Message.{Request}
use localserver.Response.Send.{Wire, send}
use localserver.Cgi.Run.{Processes}
use localserver.Handler.World.{FileSystem, Moment, World}
use localserver.Handler.Build.{build_response}
use localserver.Handler.Build.Answers.{AllCooperate, build_response-Answers}

-- One location for all paths, without methods of its own.
unfoldable pub helper_config : Text → ServerConfig
helper_config root = record {
  host = chars "127.0.0.1";
  port = 8080;
  server_name = none;
  client_max_body_size = 1024 * 1024;
  error_pages = [];
  locations =
      record {
        path = chars "/";
        root = root;
        index = some (chars "index.html");
        methods = [];
        autoindex = false;
        redirect = none;
        cgi = none;
      }
      ∷ [];
}

module _ (u : Unicode) (fs : FileSystem) (system : Processes) (m : Moment) (wire : Wire) where
  unfoldable pub handle_with_root :
      Request → wire.Stream → Text → World fs → Outcome (wire.Stream × World fs)
  unfolding helper_config
  handle_with_root req stream root w = do
    (r, after) ← build_response u fs system m (helper_config root) req w
    done (send wire stream r, after)

  -- If the scripts and the system cooperate, every request is answered on the socket.
  handle_with_root-sends :
      AllCooperate system
      → (req : Request) (stream : wire.Stream) (root : Text) (w : World fs)
      → (x : wire.Stream × World fs) × (handle_with_root req stream root w ≡ done x)
  unfolding handle_with_root
  handle_with_root-sends cooperate req stream root w =
      let (r, after, answered, disk, store) =
        build_response-Answers u fs system m (helper_config root) cooperate req w in
      ((send wire stream r, after), rw (handle_with_root, answered) refl)
