-- ===== src/Wire/Envelope.antt =====
-- crates/raynet-core/src/wire.rs: `Envelope::encode_with_prefix`, `Envelope::decode`,
-- `envelope_prefix` and `endpoint_nonce`.
pub mod RoundTrip
pub mod Canonical
use raynet.Prelude.{
  ℕ, zero, suc, ◌+◌, ◌-◌, ◌*◌, ◌/◌, ◌%◌, ◌^◌, Bool, true, not, ◌&&◌, ◌||◌, List, [], ◌∷◌, ◌++◌,
  Option, none, some, bit_or, length, take, drop, replicate, ltb, ◌==◌, if◌then◌else◌, Result, ok,
  err, ◌>>=◌, ok_or,
}
use raynet.Prelude.Bytes.{to_le_bytes, from_le_bytes}
use raynet.Machine.Types.{ChannelId}
use raynet.Wire.Layout.{
  Envelope, EnvelopeStamp, WireError, wire_error, slice, put_u48, get_u48, route_bits, time_bits,
  envelope_fixed_overhead, channel_id_size,
}

-- `((self.time & TIME_MASK) << ROUTE_BITS) | self.route_plan.len() as u32`
unfoldable pub time_and_route : Envelope → ℕ
time_and_route e = bit_or (e.time % 2 ^ time_bits * 2 ^ route_bits) (length e.route_plan % 2 ^ 32)

unfoldable pub route_bytes : List ChannelId → List ℕ
route_bytes [] = []
route_bytes (c ∷ cs) = to_le_bytes 2 c ++ route_bytes cs

unfoldable pub envelope_header : Envelope → List ℕ
envelope_header e = to_le_bytes 4 (time_and_route e) ++ (put_u48 e.seq_id ++ put_u48 e.seq_no)

unfoldable pub encode_with_prefix : Envelope → ℕ → List ℕ
encode_with_prefix e prefix_len =
    replicate prefix_len 0
    ++ (envelope_header e
        ++ (e.payload ++ (route_bytes e.route_plan ++ replicate e.padding_len e.padding_len)))

unfoldable pub envelope_prefix : List ℕ → Result WireError (EnvelopeStamp × ℕ)
envelope_prefix bytes =
    if ltb (length bytes) envelope_fixed_overhead
    then err wire_error
    else let word = from_le_bytes (slice bytes 0 4) in
      ok (
        record {
          time = word / 2 ^ route_bits;
          seq_id = get_u48 (slice bytes 4 10);
          seq_no = get_u48 (slice bytes 10 16);
        },
        word % 2 ^ route_bits,
      )

unfoldable pub last? : List ℕ → Option ℕ
last? [] = none
last? (b ∷ []) = some b
last? (b ∷ c ∷ bs) = last? (c ∷ bs)

unfoldable pub all_equal : ℕ → List ℕ → Bool
all_equal n [] = true
all_equal n (b ∷ bs) = b == n && all_equal n bs

-- The loop `while offset < route_end`; the fuel is the number of bytes that are left to read.
unfoldable pub read_route : ℕ → List ℕ → ℕ → ℕ → List ChannelId
read_route zero bytes offset route_end = []
read_route (suc fuel) bytes offset route_end =
    let rest = read_route fuel bytes (offset + 2) route_end in
    if ltb offset route_end then from_le_bytes (slice bytes offset (offset + 2)) ∷ rest else []

-- The fields, once the tail is known to be there.
unfoldable pub decode_parts : List ℕ → EnvelopeStamp → ℕ → ℕ → Envelope
decode_parts bytes stamp padding_len tail =
    let payload_end = length bytes - tail in
    let route_end = length bytes - padding_len in
    record {
      time = stamp.time;
      seq_id = stamp.seq_id;
      seq_no = stamp.seq_no;
      route_plan = read_route (route_end - payload_end) bytes payload_end route_end;
      payload = slice bytes envelope_fixed_overhead payload_end;
      padding_len = padding_len;
    }

-- The negation of the guard in front of `return Err(WireError)`.
unfoldable pub has_tail : List ℕ → ℕ → ℕ → Bool
has_tail bytes padding_len tail = not (
    (padding_len == 0 || ltb (length bytes) (envelope_fixed_overhead + tail))
    || not (all_equal padding_len (drop (length bytes - padding_len) bytes)))

unfoldable pub decode : List ℕ → Result WireError Envelope
decode bytes = do
  (stamp, route_plan_len) ← envelope_prefix bytes
  padding_len ← ok_or (last? bytes) wire_error
  let tail = padding_len + route_plan_len * channel_id_size
  if has_tail bytes padding_len tail
      then ok (decode_parts bytes stamp padding_len tail)
      else err wire_error

unfoldable pub endpoint_nonce : EnvelopeStamp → List ℕ
endpoint_nonce stamp =
    to_le_bytes 4 (stamp.time % 2 ^ time_bits * 2 ^ route_bits)
    ++ (put_u48 stamp.seq_id ++ put_u48 stamp.seq_no)
