-- ===== src/Wire/Layout.antt =====
-- crates/raynet-core/src/wire.rs: constants, types, and the helpers for 48-bit integers and slices.
use raynet.Prelude.{
  ℕ, ◌+◌, ◌-◌, ◌^◌, ◌<◌, ◌≡◌, ◌∙◌, ap, List, [], ◌∷◌, ◌++◌, arith, length, take, drop, take-append,
  drop-append, length-take,
}
use raynet.Prelude.Bytes.{to_le_bytes, from_le_bytes, length-to_le_bytes}
use raynet.Machine.Types.{ChannelId, CloseReason}

-- ROUTE_BITS, TIME_BITS, ENVELOPE_FIXED_OVERHEAD and CHANNEL_ID_SIZE.
abbrev pub route_bits : ℕ
route_bits = 6

abbrev pub time_bits : ℕ
time_bits = 26

abbrev pub envelope_fixed_overhead : ℕ
envelope_fixed_overhead = 16

abbrev pub channel_id_size : ℕ
channel_id_size = 2

pub record EnvelopeStamp : Type 0 where
  pub time : ℕ
  pub seq_id : ℕ
  pub seq_no : ℕ

pub record Envelope : Type 0 where
  pub time : ℕ
  pub seq_id : ℕ
  pub seq_no : ℕ
  pub route_plan : List ChannelId
  pub payload : List ℕ
  pub padding_len : ℕ

-- The stamp of an envelope.
abbrev pub stamp_of : Envelope → EnvelopeStamp
stamp_of e = record { time = e.time; seq_id = e.seq_id; seq_no = e.seq_no }

pub data EndpointMessage : Type 0 where
  kcp_packet : ℕ → List ℕ → EndpointMessage
  keep_alive : ℕ → EndpointMessage
  route_reply : ℕ → ℕ → ℕ → EndpointMessage

pub data SessionMessage : Type 0 where
  open_message : SessionMessage
  data_message : List ℕ → SessionMessage
  close_message : CloseReason → SessionMessage

pub data WireError : Type 0 where
  wire_error : WireError

-- `bytes[from..to]`.
abbrev pub slice : List ℕ → ℕ → ℕ → List ℕ
slice bytes from to = take (to - from) (drop from bytes)

-- `put_u48` and `put_u48_slice` both write the six low bytes of a u64.
unfoldable pub put_u48 : ℕ → List ℕ
put_u48 value = take 6 (to_le_bytes 8 value)

-- The six bytes are widened by two zero bytes.
unfoldable pub get_u48 : List ℕ → ℕ
get_u48 bytes = from_le_bytes (bytes ++ (0 ∷ 0 ∷ []))

-- The part between a front and a back of known lengths.
pub slice-middle :
    (a b c : List ℕ) (i j : ℕ) → length a ≡ i → i + length b ≡ j → slice (a ++ (b ++ c)) i j ≡ b
slice-middle a b c i j ha hb =
    ap (take (j - i)) (drop-append a (b ++ c) i ha) ∙ take-append b c (j - i) (omega arith)

pub length-put_u48 : (value : ℕ) → length (put_u48 value) ≡ 6
unfolding put_u48
length-put_u48 value =
    omega (arith, length-take 6 (to_le_bytes 8 value), length-to_le_bytes 8 value)

pub get_u48-put_u48 : (value : ℕ) → value < 2 ^ 48 → get_u48 (put_u48 value) ≡ value
unfolding get_u48 put_u48 to_le_bytes from_le_bytes
get_u48-put_u48 value h = omega arith
