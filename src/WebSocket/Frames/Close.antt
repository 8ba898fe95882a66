-- ===== src/WebSocket/Frames/Close.antt =====
-- The payload of a close frame (WebSocket.cpp, lines 274 to 308 and 443 to 462).
use bff_rtc_base.Base.{◌≡◌, ap, ℕ, ◌<◌, ◌/◌, ◌%◌, ◌*◌, ◌+◌, ◌^◌, Bytes, pos, take, arith}
use bff_rtc_base.WebSocket.Send.{close_payload}
use bff_rtc_base.WebSocket.Frames.{parse_close}

code-split : (n : ℕ) → n < 65536 → (n % 2 ^ 32 / 256 % 256) * 256 + n % 2 ^ 32 % 256 ≡ n
code-split n h = omega arith

-- What one side writes to a close frame the other one reads: a code of 16 bits comes back as it is,
-- and of the reason the first 123 bytes, the most that a control frame has room for.
pub parse_close-close_payload :
    (n : ℕ) (reason : Bytes)
    → n < 65536
    → parse_close (close_payload (pos n) reason) ≡ (pos n, take 123 reason)
unfolding parse_close close_payload
parse_close-close_payload n reason h = ap (λ k. (pos k, take 123 reason)) (code-split n h)
