-- ===== src/Wire/Tests.antt =====
-- The layouts of crates/raynet-core/src/wire.rs at concrete values.
use raynet.Prelude.{ℕ, ◌≡◌, refl, List, [], ◌∷◌, ok, returns, arith}
use raynet.Wire.Layout.{Envelope, EndpointMessage, route_reply, close_message, data_message}
use raynet.Wire.Envelope
use raynet.Wire.Envelope.RoundTrip
use raynet.Wire.Envelope.RoundTrip.{Fits}
use raynet.Wire.Layout
use raynet.Prelude.Bytes
use raynet.Wire.Envelope.Canonical.{decode_canonical}
use raynet.Wire.EndpointMessages
use raynet.Wire.SessionMessages
use raynet.Machine.Types.{reset}

-- The envelope of the test `envelope_header_layout_and_decode`.
abbrev sample : Envelope
sample = record {
  time = 1;
  seq_id = 2;
  seq_no = 3;
  route_plan = 2 ∷ 3 ∷ [];
  payload = 112 ∷ 97 ∷ [];
  padding_len = 3;
}

abbrev sample_bytes : List ℕ
sample_bytes =
    66 ∷ 0 ∷ 0 ∷ 0 ∷ 2 ∷ 0 ∷ 0 ∷ 0 ∷ 0 ∷ 0 ∷ 3 ∷ 0 ∷ 0 ∷ 0 ∷ 0 ∷ 0 ∷ 112 ∷ 97 ∷ 2 ∷ 0 ∷ 3 ∷ 0 ∷ 3
    ∷ 3 ∷ 3 ∷ []

encode_sample : Envelope.encode_with_prefix sample 0 ≡ sample_bytes
unfolding Envelope.encode_with_prefix Envelope.envelope_header Envelope.time_and_route
    Envelope.route_bytes Layout.put_u48 Bytes.to_le_bytes
encode_sample = refl

decode-sample : Envelope.decode sample_bytes ≡ ok sample
unfolding Envelope.decode Envelope.envelope_prefix Envelope.decode_parts Envelope.has_tail
    Envelope.last? Envelope.all_equal Envelope.read_route Layout.get_u48 Bytes.from_le_bytes
decode-sample = refl

decode-encode_with_prefix_example :
    Envelope.decode (Envelope.encode_with_prefix sample 0) ≡ ok sample
decode-encode_with_prefix_example = RoundTrip.decode-encode_with_prefix sample (omega arith)

decode_canonical_example : Fits sample × (Envelope.encode_with_prefix sample 0 ≡ sample_bytes)
decode_canonical_example = decode_canonical sample_bytes sample (omega arith) decode-sample

abbrev reply : EndpointMessage
reply = route_reply 2 0x3344_5566_7788 0x1122_99aa_bbcc

endpoint_message_example :
    EndpointMessages.decode (EndpointMessages.encode_with_prefix reply 0) ≡ returns reply
endpoint_message_example = EndpointMessages.decode-encode_endpoint_message reply (omega arith)

session_message_example :
    SessionMessages.decode (SessionMessages.encode (close_message reset))
    ≡ returns (close_message reset)
session_message_example = SessionMessages.decode-encode_session_message (close_message reset)

decode_hello : SessionMessages.decode (1 ∷ 104 ∷ 105 ∷ []) ≡ returns (data_message (104 ∷ 105 ∷ []))
unfolding SessionMessages.decode
decode_hello = refl
