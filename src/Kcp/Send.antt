-- ===== src/Kcp/Send.antt =====
-- crates/raynet-core/src/kcp/kcp.rs: `send`, which cuts a message into fragments.
pub mod Fragments
use raynet.Prelude.{
  ℕ, zero, suc, ◌+◌, ◌-◌, ◌/◌, ◌%◌, Bool, ◌||◌, List, [], ◌∷◌, ◌++◌, length, take, drop, min, max,
  leb, ◌==◌, if◌then◌else◌, Result, ok, err, Outcome, returns, panics,
}
use raynet.Kcp.Types.{Kcp, KcpSegment, KcpError, user_buf_too_big, new_with_data}

-- `usize::div_ceil`
abbrev pub div_ceil : ℕ → ℕ → ℕ
div_ceil a b = (a + b - 1) / b

-- The loop `for i in 0..count`, over the rounds that are left: `count - i - 1` is one less.
unfoldable pub fragments : ℕ → ℕ → List ℕ → List KcpSegment
fragments zero mss buf = []
fragments (suc left) mss buf =
    let size = min mss (length buf) in
    record (new_with_data (take size buf)) { frg = left % 256 } ∷ fragments left mss (drop size buf)

-- `div_ceil` panics where `mss` is zero.
unfoldable pub send : Kcp → List ℕ → Outcome (Kcp × Result KcpError ℕ)
send k buf =
    let count = max (div_ceil (length buf) k.mss) 1 in
    if k.mss == 0
    then panics
    else if leb k.rcv_wnd count || leb 256 count
    then returns (k, err user_buf_too_big)
    else returns
        (record k { snd_queue = k.snd_queue ++ fragments count k.mss buf }, ok (length buf))
