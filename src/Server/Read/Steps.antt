-- ===== src/Server/Read/Steps.antt =====
-- The steps of `handle_read`: the bytes received, the request tried, the server named.
use localserver.Base.{
  ℕ, ◌≡◌, refl, sym, ap, ◌∙◌, ◌⊎◌, inl, inr, Option, none, some, Option-cases, List, [], ◌∷◌, ◌++◌,
  append_assoc, append-nil, Outcome, done, refused, panicked, out_of_fuel, ==-self,
}
use localserver.Std.Text.{Text, Bytes, chars, text_eq, split_once}
use localserver.Std.Map
use localserver.Std.Map.{get-insert, get-remove}
use localserver.Std.Keys.{number_key, text_key}
use localserver.Config.Data.{ServerConfig}
use localserver.Request.Message.{Request}
use localserver.Response.Serialize.{}
use localserver.Handler.World.{}
use localserver.Server.{match_config, host_of, with_query}
use localserver.Server.Read.{receive, attempt}

abbrev pub joined : List Bytes → Bytes
joined [] = []
joined (chunk ∷ chunks) = chunk ++ joined chunks

pub get-receive :
    (fd : ℕ) (chunks : List Bytes) (buffers : List (ℕ × Bytes)) (old : Bytes)
    → Map.get buffers fd ≡ some old
    → Map.get (receive fd chunks buffers) fd ≡ some (old ++ joined chunks)
unfolding receive
get-receive fd [] buffers old here = here ∙ ap some (sym (append-nil old))
get-receive fd (chunk ∷ chunks) buffers old here =
    rw (receive, here)
      (get-receive fd chunks (Map.insert buffers fd (old ++ chunk)) (old ++ chunk)
          (get-insert buffers fd fd (old ++ chunk) ∙ rw (==-self fd))
        ∙ ap some (append_assoc old chunk (joined chunks)))

pub attempt-done :
    (o : Outcome Request) {r : Option Request}
    → attempt o ≡ done r
    → ((req : Request) × (o ≡ done req) × (r ≡ some req)) ⊎ ((o ≡ refused) × (r ≡ none))
unfolding attempt
attempt-done (done req) e = inl (req, refl, cc)
attempt-done refused e = inr (refl, cc)
attempt-done panicked e = cc
attempt-done out_of_fuel e = cc

get-query :
    (headers : List (Text × Text)) (query : Text)
    → Map.get (Map.insert headers (chars "x-query-string") query) (chars "host")
      ≡ Map.get headers (chars "host")
unfolding text_eq
get-query headers query = get-insert headers (chars "x-query-string") (chars "host") query

-- The query does not stand in the header that names the server.
host_of-with_query : (req : Request) → host_of (with_query req) ≡ host_of req
unfolding host_of with_query
host_of-with_query req = elim (Option-cases (split_once b'?' req.path)) [
  | inl whole ↦ rw (whole, with_query) (rw (host_of, get-query req.headers []))
  | inr ((path, query), parts) ↦ rw (parts, with_query) (rw (host_of, get-query req.headers query))
]

pub match_config-with_query :
    (configs : List ServerConfig) (req : Request)
    → match_config configs (with_query req) ≡ match_config configs req
unfolding match_config
match_config-with_query configs req = rw (host_of-with_query req) refl
