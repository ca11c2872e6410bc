-- ===== src/Response/Send.antt =====
-- src/response.rs: `Response::send`, which writes a response to a socket by itself.
pub mod Agrees
use localserver.Base.{Bool, ◌++◌, if◌then◌else◌, length}
use localserver.Std.Text.{Text, Bytes, chars}
use localserver.Std.Utf8.{into_bytes}
use localserver.Std.Number.{to_string}
use localserver.Response.{as_str, Response}
use localserver.Response.Serialize.{cookie_headers}

-- A socket with `write_all`, which says whether all bytes were written, and what the other end
-- has received of it.
pub record Wire : Type 1 where
  pub Stream : Type 0
  pub write_all : Stream → Bytes → Stream × Bool
  pub received : Stream → Bytes

-- The head has no `Location`, and the status is the response's own.
unfoldable pub send_head : Response → Text
send_head r =
    chars "HTTP/1.1 "
    ++ (as_str r.status
        ++ (chars "\r\nContent-Type: "
            ++ (r.content_type
                ++ (chars "\r\nContent-Length: "
                    ++ (to_string (length r.body)
                        ++ (chars "\r\n" ++ (cookie_headers r.cookies ++ chars "\r\n")))))))

module _ (w : Wire) where
  -- The body is written if the head was.
  unfoldable pub send : w.Stream → Response → w.Stream
  send s r =
      let (after, done) = w.write_all s (into_bytes (send_head r)) in
      if done then (w.write_all after r.body).0 else after
