-- ===== src/Kcp/Codec.antt =====
-- crates/raynet-core/src/kcp/kcp.rs: `KcpSegment::encode`, the header that `Kcp::input` reads, and
-- `get_conv`.
pub mod RoundTrip
use raynet.Prelude.{ℕ, ◌+◌, ◌-◌, ◌*◌, ◌%◌, ◌^◌, ◌≡◌, List, [], ◌++◌, length, take, drop}
use raynet.Prelude.Bytes.{to_le_bytes, from_le_bytes}
use raynet.Kcp.Types.{KcpSegment, kcp_overhead}

-- `put_u8`, `put_u16_le`, `put_u32_le`, `put_u64_le` and their `get_…` of the crate `bytes`, which
-- is not part of the repository: by its documentation they write and read little-endian integers at
-- the end and at the front of a buffer. The first argument is the width in bytes.
pub record ByteOrder : Type 0 where
  pub put_le : ℕ → ℕ → List ℕ
  pub get_le : ℕ → List ℕ → ℕ
  pub put_le_little : (w n : ℕ) → put_le w n ≡ to_le_bytes w n
  pub get_le_little : (w : ℕ) (bytes : List ℕ) → get_le w bytes ≡ from_le_bytes (take w bytes)

-- The fields in front of the data, with the length that they announce.
pub record Header : Type 0 where
  pub conv : ℕ
  pub cmd : ℕ
  pub frg : ℕ
  pub wnd : ℕ
  pub ts : ℕ
  pub sn : ℕ
  pub una : ℕ
  pub len : ℕ

module _ (order : ByteOrder) where
  open order use {put_le, get_le}

  -- What `encode` appends to the buffer.
  unfoldable pub encode : KcpSegment → List ℕ
  encode s =
      put_le 8 s.conv
      ++ (put_le 1 s.cmd
          ++ (put_le 1 s.frg
              ++ (put_le 2 s.wnd
                  ++ (put_le 4 s.ts
                      ++ (put_le 4 s.sn
                          ++ (put_le 4 s.una
                              ++ (put_le 4 (length s.bytes % 2 ^ 32) ++ s.bytes)))))))

  unfoldable pub get_conv : List ℕ → ℕ
  get_conv bytes = get_le 8 bytes

  -- The eight reads at the head of the loop of `input`.
  unfoldable pub read_header : List ℕ → Header
  read_header b = record {
    conv = get_le 8 b;
    cmd = get_le 1 (drop 8 b);
    frg = get_le 1 (drop 9 b);
    wnd = get_le 2 (drop 10 b);
    ts = get_le 4 (drop 12 b);
    sn = get_le 4 (drop 16 b);
    una = get_le 4 (drop 20 b);
    len = get_le 4 (drop 24 b);
  }
