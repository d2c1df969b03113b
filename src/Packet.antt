-- ===== src/Packet.antt =====
-- crates/raynet-core/src/packet.rs and random.rs: the envelope, encrypted.
pub mod RoundTrip
pub mod Samples
use raynet.Prelude.{
  ℕ, ◌^◌, ◌≡◌, ◌<◌, Bool, ◌||◌, List, [], ◌++◌, Option, none, some, length, take, drop, ltb,
  if◌then◌else◌, All, IsByte, Result, ok, err,
}
use raynet.Prelude.Bytes.{from_le_bytes}
use raynet.Wire.Layout.{Envelope, slice}
use raynet.Wire.Envelope.{encode_with_prefix, decode}
use raynet.Limits.{transport_packet_overhead, max_transport_packet_size}

-- `Aegis128L` of the crate `aegis`, with tags of 16 bytes, which is not part of the repository. The
-- arguments are the key, the nonce, the text and the associated data. By its documentation it
-- encrypts in place, decrypts what it encrypted, and works on bytes.
pub record Aead : Type 0 where
  pub encrypt : List ℕ → List ℕ → List ℕ → List ℕ → List ℕ × List ℕ
  pub decrypt : List ℕ → List ℕ → List ℕ → List ℕ → List ℕ → Option (List ℕ)
  pub length-encrypt :
      (key nonce text ad : List ℕ)
      → (length (encrypt key nonce text ad).0 ≡ length text)
        × (length (encrypt key nonce text ad).1 ≡ 16)
  pub decrypt-encrypt :
      (key nonce text ad : List ℕ)
      → All IsByte text
      → decrypt key nonce (encrypt key nonce text ad).0 (encrypt key nonce text ad).1 ad ≡ some text
  pub decrypt-IsByte :
      (key nonce text tag ad plain : List ℕ)
      → decrypt key nonce text tag ad ≡ some plain
      → All IsByte plain

-- The output reader of the crate `blake3`: `fill` gives as many bytes as the buffer has.
pub record RandomSource (Stream : Type 0) : Type 0 where
  pub new_stream : List ℕ → Stream
  pub fill : ℕ → Stream → List ℕ × Stream
  pub length-fill : (n : ℕ) (s : Stream) → length (fill n s).0 ≡ n

pub data TransportPacketError : Type 0 where
  invalid_length authentication malformed_envelope : TransportPacketError

module _ {Stream : Type 0} (source : RandomSource Stream) where
  -- `RandomStream::u64`.
  unfoldable pub random_u64 : Stream → ℕ × Stream
  random_u64 s = let (bytes, s') = source.fill 8 s in (from_le_bytes bytes, s')

unfoldable pub decrypt_envelope : Option (List ℕ) → Result TransportPacketError Envelope
decrypt_envelope none = err authentication
decrypt_envelope (some plain) = elim (decode plain) [
  | err e ↦ err malformed_envelope
  | ok envelope ↦ ok envelope
]

module _ (aead : Aead) where
  module _ {Stream : Type 0} (source : RandomSource Stream) where
    unfoldable pub encode_transport_packet : List ℕ → Stream → Envelope → List ℕ × Stream
    encode_transport_packet key s envelope =
        let (nonce, s') = source.fill 16 s in
        let packet = encode_with_prefix envelope transport_packet_overhead in
        let (text, tag) = aead.encrypt key nonce (drop transport_packet_overhead packet) [] in
        (nonce ++ (tag ++ text), s')

  unfoldable pub decode_transport_packet : List ℕ → List ℕ → Result TransportPacketError Envelope
  decode_transport_packet key packet =
      if ltb (length packet) transport_packet_overhead
        || ltb max_transport_packet_size (length packet)
      then err invalid_length
      else decrypt_envelope (
          aead.decrypt key (slice packet 0 16) (drop transport_packet_overhead packet)
            (slice packet 16 32) [])
