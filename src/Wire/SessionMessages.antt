-- ===== src/Wire/SessionMessages.antt =====
-- crates/raynet-core/src/wire.rs: `SessionMessage::encode` and `SessionMessage::decode`.
use raynet.Prelude.{
  ℕ, ◌≡◌, refl, List, [], ◌∷◌, Outcome, returns, panics, ◌==◌, if◌then◌else◌, arith,
}
use raynet.Machine.Types.{CloseReason, local_closed, remote_closed, reset, error}
use raynet.Wire.Layout.{SessionMessage, open_message, data_message, close_message}

-- `reason as u8`
unfoldable pub reason_byte : CloseReason → ℕ
reason_byte local_closed = 0
reason_byte remote_closed = 1
reason_byte reset = 2
reason_byte error = 3

unfoldable pub encode : SessionMessage → List ℕ
encode open_message = 0 ∷ []
encode (data_message bytes) = 1 ∷ bytes
encode (close_message reason) = 2 ∷ reason_byte reason ∷ []

unfoldable pub decode_reason : List ℕ → Outcome SessionMessage
decode_reason [] = panics
decode_reason (b ∷ bs) =
    if b == 0
    then returns (close_message local_closed)
    else if b == 1
    then returns (close_message remote_closed)
    else if b == 2
    then returns (close_message reset)
    else if b == 3
    then returns (close_message error)
    else panics

unfoldable pub decode : List ℕ → Outcome SessionMessage
unfolding decode_reason
decode [] = panics
decode (tag ∷ rest) =
    if tag == 0
    then returns open_message
    else if tag == 1
    then returns (data_message rest)
    else if tag == 2
    then decode_reason rest
    else panics

-- Every session message is read back from its encoding.
pub decode-encode_session_message : (m : SessionMessage) → decode (encode m) ≡ returns m
unfolding decode encode reason_byte
decode-encode_session_message open_message = refl
decode-encode_session_message (data_message bytes) = refl
decode-encode_session_message (close_message local_closed) = refl
decode-encode_session_message (close_message remote_closed) = refl
decode-encode_session_message (close_message reset) = refl
decode-encode_session_message (close_message error) = refl

-- Bytes that decode to a data message are the encoding of that message.
pub encode-decode_data :
    (bs data_bytes : List ℕ)
    → decode bs ≡ returns (data_message data_bytes)
    → encode (data_message data_bytes) ≡ bs
unfolding decode encode
encode-decode_data [] ds h = cc
encode-decode_data (tag ∷ rest) ds h = ground arith
