-- ===== src/Kcp/Samples.antt =====
-- Concrete states and packets of crates/raynet-core/src/kcp/kcp.rs, for the tests.
use raynet.Prelude.{ℕ, refl, true, false, List, [], ◌∷◌, some, take}
use raynet.Prelude.Bytes.{to_le_bytes, from_le_bytes}
use raynet.Kcp.Types.{Kcp, KcpParams, KcpSegment, new_kcp, new_with_data}
use raynet.Kcp.Codec.{ByteOrder}
use raynet.Kcp.Send.{fragments}

-- The crate `bytes`, as it is documented.
abbrev pub little_endian : ByteOrder
little_endian = record {
  put_le = to_le_bytes;
  get_le = λ w bytes. from_le_bytes (take w bytes);
  put_le_little = λ w n. refl;
  get_le_little = λ w bytes. refl;
}

abbrev pub params : KcpParams
params = record {
  mtu = 100;
  send_window = 16;
  receive_window = 8;
  nodelay = false;
  fast_resend = some 2;
  congestion_control = true;
  time_scale = 10;
}

-- A segment of conversation 7 with the number 0 and two bytes, and its packet.
abbrev pub greeting : KcpSegment
greeting = record (new_with_data (104 ∷ 105 ∷ [])) { conv = 7; cmd = 81; wnd = 8 }

abbrev pub fresh : Kcp
fresh = new_kcp 7 params

-- A message of two fragments that has arrived, with a second one behind it.
abbrev pub message : List ℕ
message = 1 ∷ 2 ∷ 3 ∷ []

-- A sender with two acknowledgements and two segments to put out.
abbrev pub busy : Kcp
busy = record fresh {
  updated = true;
  acklist = (3, 4) ∷ (5, 6) ∷ [];
  snd_queue = fragments 2 72 message;
  cwnd = 1;
}
