-- ===== src/Kcp/Codec/RoundTrip.antt =====
-- crates/raynet-core/src/kcp/kcp.rs: the header that `Kcp::input` reads, of a segment that
-- `KcpSegment::encode` wrote.
use raynet.Prelude.{
  ℕ, ◌+◌, ◌%◌, ◌^◌, ◌<◌, ◌≡◌, refl, ap, ◌∙◌, List, ◌++◌, arith, length, drop, take-append, IsByte,
  IsU16, IsU32, IsU64,
}
use raynet.Prelude.Bytes.{to_le_bytes, from_le_bytes, length-to_le_bytes, from_le_bytes-to_le_bytes}
use raynet.Kcp.Types.{KcpSegment}
use raynet.Kcp.Codec.{ByteOrder, Header, encode, get_conv, read_header}

-- The fields are integers of the widths that they are declared with.
pub record IsSegment (s : KcpSegment) : Type 0 where
  pub conv_in : IsU64 s.conv
  pub cmd_in : IsByte s.cmd
  pub frg_in : IsByte s.frg
  pub wnd_in : IsU16 s.wnd
  pub ts_in : IsU32 s.ts
  pub sn_in : IsU32 s.sn
  pub una_in : IsU32 s.una
  pub len_in : IsU32 (length s.bytes)

-- The header of a segment.
unfoldable pub header : KcpSegment → Header
header s = record {
  conv = s.conv;
  cmd = s.cmd;
  frg = s.frg;
  wnd = s.wnd;
  ts = s.ts;
  sn = s.sn;
  una = s.una;
  len = length s.bytes;
}

abbrev pub header_bytes : KcpSegment → List ℕ
header_bytes s =
    to_le_bytes 8 s.conv
    ++ (to_le_bytes 1 s.cmd
        ++ (to_le_bytes 1 s.frg
            ++ (to_le_bytes 2 s.wnd
                ++ (to_le_bytes 4 s.ts
                    ++ (to_le_bytes 4 s.sn
                        ++ (to_le_bytes 4 s.una ++ to_le_bytes 4 (length s.bytes % 2 ^ 32)))))))

module _ (order : ByteOrder) where
  encode-header : (s : KcpSegment) → encode order s ≡ header_bytes s ++ s.bytes
  unfolding encode to_le_bytes
  encode-header s = simp order.put_le_little

  pub length-encode : (s : KcpSegment) → length (encode order s) ≡ 28 + length s.bytes
  unfolding to_le_bytes
  length-encode s = rw (encode-header s) (omega arith)

  -- The data begins behind the header.
  pub drop-encode :
      (s : KcpSegment) (rest : List ℕ) → drop 28 (encode order s ++ rest) ≡ s.bytes ++ rest
  unfolding to_le_bytes
  drop-encode s rest = rw (encode-header s) refl

  -- An integer at the front of a buffer.
  get_le-front :
      (w n : ℕ) (rest : List ℕ) → n < 256 ^ w → order.get_le w (to_le_bytes w n ++ rest) ≡ n
  get_le-front w n rest h =
      order.get_le_little w (to_le_bytes w n ++ rest)
      ∙ ap from_le_bytes (take-append (to_le_bytes w n) rest w (length-to_le_bytes w n))
      ∙ from_le_bytes-to_le_bytes w n h

  -- What `input` reads at the front of a packet is the header of the segment, with fields of their
  -- widths, that was encoded there, whatever follows it, and `get_conv` reads its conversation.
  pub read_header-encode :
      (s : KcpSegment) (rest : List ℕ)
      → IsSegment s
      → (read_header order (encode order s ++ rest) ≡ header s)
        × (get_conv order (encode order s ++ rest) ≡ s.conv)
  unfolding read_header header get_conv to_le_bytes
  read_header-encode s rest h =
      let payload = s.bytes ++ rest in
      let size = length s.bytes % 2 ^ 32 in
      let at_len = to_le_bytes 4 size ++ payload in
      let at_una = to_le_bytes 4 s.una ++ at_len in
      let at_sn = to_le_bytes 4 s.sn ++ at_una in
      let at_ts = to_le_bytes 4 s.ts ++ at_sn in
      let at_wnd = to_le_bytes 2 s.wnd ++ at_ts in
      let at_frg = to_le_bytes 1 s.frg ++ at_wnd in
      let at_cmd = to_le_bytes 1 s.cmd ++ at_frg in
      let len_eq : size ≡ length s.bytes = omega (arith, h.len_in) in
      rw
        (
          encode-header s,
          get_le-front 8 s.conv at_cmd (omega (arith, h.conv_in)),
          get_le-front 1 s.cmd at_frg (omega (arith, h.cmd_in)),
          get_le-front 1 s.frg at_wnd (omega (arith, h.frg_in)),
          get_le-front 2 s.wnd at_ts (omega (arith, h.wnd_in)),
          get_le-front 4 s.ts at_sn (omega (arith, h.ts_in)),
          get_le-front 4 s.sn at_una (omega (arith, h.sn_in)),
          get_le-front 4 s.una at_len (omega (arith, h.una_in)),
          get_le-front 4 size payload (omega arith),
          len_eq,
        )
        (refl, refl)
