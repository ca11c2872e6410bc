-- ===== src/Tests/Responses.antt =====
-- Responses: src/response.rs and `serialize_response`.
use localserver.Base.{◌≡◌, refl, true, append-nil, none, some, [], ◌∷◌, ◌++◌, map}
use localserver.Std.Text.{Bytes, chars}
use localserver.Std.Utf8.{into_bytes}
use localserver.Response.{Response, okay}
use localserver.Response.Serialize.{serialize_response}
use localserver.Response.Serialize.Framing.{
  IsPlain, status_line, header_lines, read_message, read_message-serialize_response,
}
use localserver.Response.Send.{Wire, send_head, send}
use localserver.Response.Send.Agrees.{IsWire, send-serialize_response}

abbrev greeting : Response
greeting = record {
  status = okay;
  content_type = chars "text/html";
  body = chars "hi\r\n\r\n";
  cookies = chars "a=b" ∷ [];
  redirect_location = none;
}

greeting-IsPlain : IsPlain greeting
greeting-IsPlain = record {
  content_type = (refl, refl);
  cookies = ((refl, refl), tt);
  location = tt;
}

read_message-serialize_response_example :
    read_message (serialize_response greeting)
    ≡ some (map into_bytes (status_line greeting ∷ header_lines greeting), greeting.body)
read_message-serialize_response_example = read_message-serialize_response greeting greeting-IsPlain

-- A socket that takes everything.
abbrev reliable : Wire
reliable = record { Stream = Bytes; write_all = λ s bytes. (s ++ bytes, true); received = λ s. s }

reliable-IsWire : IsWire reliable
reliable-IsWire s bytes = (bytes, [], append-nil bytes, refl, λ _. refl)

send-serialize_response_example :
    (out : Bytes) × (rest : Bytes) × (out ++ rest ≡ serialize_response greeting)
    × (reliable.received (send reliable [] greeting) ≡ [] ++ out)
    × ((reliable.write_all [] (into_bytes (send_head greeting))).1 ≡ true
        → (reliable.write_all
            (reliable.write_all [] (into_bytes (send_head greeting))).0
            greeting.body).1
          ≡ true
        → rest ≡ [])
send-serialize_response_example = send-serialize_response reliable [] greeting reliable-IsWire refl
