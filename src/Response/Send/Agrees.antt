-- ===== src/Response/Send/Agrees.antt =====
-- `send` and `serialize_response` put the same bytes on the wire, but for redirects.
use localserver.Base.{
  ◌≡◌, sym, ap, ◌∙◌, true, false, Bool-cases, none, [], ◌++◌, append_assoc, append-nil, inl, inr,
}
use localserver.Std.Text.{Bytes}
use localserver.Std.Utf8.{into_bytes}
use localserver.Response.{Response}
use localserver.Response.Serialize.{serialize_response, response_head, status_text, location_header}
use localserver.Response.Send.{Wire, send_head, send}

-- What is documented of `write_all`: a first part of the bytes arrives, and all if it succeeds.
abbrev pub IsWire : Wire → Type 0
IsWire w =
    (s : w.Stream) (bytes : Bytes)
    → (out : Bytes) × (rest : Bytes) × (out ++ rest ≡ bytes)
      × (w.received (w.write_all s bytes).0 ≡ w.received s ++ out)
      × ((w.write_all s bytes).1 ≡ true → rest ≡ [])

send_head-response_head :
    (r : Response) → r.redirect_location ≡ none → send_head r ≡ response_head r
unfolding send_head response_head status_text location_header
send_head-response_head r plain = rw (plain, status_text, location_header)

-- A response without a redirect is sent as the bytes of `serialize_response`: a first part of them
-- arrives, and all of them if both writes succeed.
pub send-serialize_response :
    (w : Wire) (s : w.Stream) (r : Response)
    → IsWire w
    → r.redirect_location ≡ none
    → (out : Bytes) × (rest : Bytes) × (out ++ rest ≡ serialize_response r)
      × (w.received (send w s r) ≡ w.received s ++ out)
      × ((w.write_all s (into_bytes (send_head r))).1 ≡ true
          → (w.write_all (w.write_all s (into_bytes (send_head r))).0 r.body).1 ≡ true
          → rest ≡ [])
unfolding serialize_response send
send-serialize_response w s r law plain =
    let head = into_bytes (send_head r) in
    let same : head ++ r.body ≡ into_bytes (response_head r) ++ r.body =
      ap (λ x. into_bytes x ++ r.body) (send_head-response_head r plain) in
    let (out, rest, split, arrived, all) = law s head in
    let (out2, rest2, split2, arrived2, all2) = law (w.write_all s head).0 r.body in
    elim (Bool-cases (w.write_all s head).1) [
      | inl ok ↦ (
        out ++ out2,
        rest2,
        append_assoc out out2 rest2
            ∙ rw split2
                (ap (λ x. x ++ r.body) (sym (append-nil out) ∙ rw (sym (all ok)) split) ∙ same),
        sent ok ∙ arrived2 ∙ rw arrived (append_assoc (w.received s) out out2),
        λ _ ok2. all2 ok2,
      )
      | inr broken ↦ (
        out,
        rest ++ r.body,
        sym (append_assoc out rest r.body) ∙ rw split same,
        stuck broken ∙ arrived,
        λ ok _. cc (ok, broken),
      )
    ]
  where
    sent :
        (w.write_all s (into_bytes (send_head r))).1 ≡ true
        → w.received (send w s r)
          ≡ w.received (w.write_all (w.write_all s (into_bytes (send_head r))).0 r.body).0
    sent ok = rw ok

    stuck :
        (w.write_all s (into_bytes (send_head r))).1 ≡ false
        → w.received (send w s r) ≡ w.received (w.write_all s (into_bytes (send_head r))).0
    stuck broken = rw broken
