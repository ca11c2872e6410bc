-- ===== src/Cgi/Run.antt =====
-- src/cgi.rs: `CgiRunner::run` and `wait_with_timeout`. Processes are the system's: a child is
-- what it does with its input, its polls and its output.
pub mod Timeout
use mathlib.Core.Option
use localserver.Base.{
  ℕ, zero, suc, ◌+◌, ◌*◌, Bool, true, false, Option, none, some, List, [], ◌∷◌, ◌++◌, if◌then◌else◌,
  ltb, length, is_empty, Outcome, done, out_of_fuel, never, ◌>>=◌,
}
use localserver.Std.Text.{Text, Bytes, chars, Unicode, split_once}
use localserver.Std.Number.{to_string}
use localserver.Std.Map
use localserver.Std.Keys.{text_key}
use localserver.Request.Message.{Method, Request}
use localserver.Response.{Response, internal_server_error, error}
use localserver.Cgi.Output.{parse_cgi_output}

pub record Command : Type 0 where
  pub interpreter : Text
  pub script_path : Text
  pub env : List (Text × Text)

-- What `try_wait` says; a running child has been waited for so many milliseconds.
pub data Poll : Type 0 where
  exited : Poll
  running : ℕ → Poll
  failed : Poll

pub record Output : Type 0 where
  pub success : Bool
  pub stdout : Bytes

-- `write_all` of a request's body to a script's input: it returns, with success or with an error,
-- which is only printed; or the script leaves the input full, and it never returns.
pub data Input : Type 0 where
  taken : Input
  left_full : Input

-- `wait_with_output`, which reads until the output is closed by all who have it open.
pub data Collected : Type 0 where
  collected : Output → Collected
  unreadable : Collected
  held_open : Collected

pub record Child : Type 0 where
  pub input : Input
  pub polls : ℕ → Poll
  pub output : Collected

-- Starting a process, which is then offered these bytes as its input.
pub record Processes : Type 0 where
  pub spawn : Command → Bytes → Option Child

unfoldable pub method_str : Method → Text
method_str Method.get = chars "GET"
method_str Method.post = chars "POST"
method_str Method.delete = chars "DELETE"
method_str (Method.unknown s) = s

unfoldable pub query_string : Text → Text
query_string path = elim (split_once b'?' path) [ none ↦ [] | some (_, query) ↦ query ]

header_or_empty : Request → Text → Text
header_or_empty req name = Option.get_or (Map.get req.headers name) []

unfoldable pub command_of : Text → Text → Request → Command
unfolding method_str header_or_empty
command_of interpreter script_path req = record {
  interpreter = interpreter;
  script_path = script_path;
  env =
      (chars "QUERY_STRING", header_or_empty req (chars "x-query-string"))
      ∷ (chars "REQUEST_METHOD", method_str req.method)
      ∷ (chars "PATH_INFO", req.path)
      ∷ (chars "CONTENT_LENGTH", to_string (length req.body))
      ∷ (chars "CONTENT_TYPE", header_or_empty req (chars "content-type"))
      ∷ (chars "SERVER_PROTOCOL", chars "HTTP/1.1")
      ∷ (chars "GATEWAY_INTERFACE", chars "CGI/1.1")
      ∷ [];
}

abbrev pub timeout : ℕ
timeout = 10000

unfoldable pub collect : Collected → Outcome (Option Output)
collect (collected o) = done (some o)
collect unreadable = done none
collect held_open = never

-- One poll for each unit of fuel, from the poll `n` on; a poll is followed by a sleep of 10 ms.
-- A child that is killed ends, so the `wait` for it returns.
unfoldable pub wait_loop : ℕ → ℕ → Child → Outcome (Option Output)
unfolding collect
wait_loop zero n child = out_of_fuel
wait_loop (suc fuel) n child =
    let again = wait_loop fuel (n + 1) child in
    elim (child.polls n) [
      | exited ↦ collect child.output
      | running elapsed ↦ if ltb timeout elapsed then done none else again
      | failed ↦ done none
    ]

-- A poll for each ten milliseconds up to the timeout, and two.
abbrev pub rounds : ℕ
rounds = 1002

unfoldable pub wait_with_timeout : Child → Outcome (Option Output)
unfolding wait_loop
wait_with_timeout child = wait_loop rounds 0 child

unfoldable pub answer : Unicode → Option Output → Response
answer u none = error internal_server_error
answer u (some o) = if o.success then parse_cgi_output u o.stdout else error internal_server_error

abbrev pub write_input : Input → Child → Outcome Child
write_input taken child = done child
write_input left_full child = never

-- The body is written, if there is one, before the wait with its timeout begins.
unfoldable pub feed : Bytes → Child → Outcome Child
feed body child =
    let written = write_input child.input child in if is_empty body then done child else written

unfoldable pub run : Unicode → Processes → Text → Text → Request → Outcome Response
unfolding command_of feed wait_with_timeout answer
run u system interpreter script_path req =
    elim (system.spawn (command_of interpreter script_path req) req.body) [
      | none ↦ done (error internal_server_error)
      | some child ↦ (do
        fed ← feed req.body child
        output ← wait_with_timeout fed
        done (answer u output))
    ]
