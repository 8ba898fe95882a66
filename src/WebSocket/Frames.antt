-- ===== src/WebSocket/Frames.antt =====
-- The frames that come in (lines 218 to 315): `write_cb` for one chunk of a frame.
pub mod Whole
pub mod Close
use bff_rtc_base.Base.{
  ℕ, ◌+◌, ◌*◌, Bool, true, false, [], ◌∷◌, ◌++◌, Option, none, some, Bytes, if◌then◌else◌, ◌==◌,
  nat_eq, is_empty, length, ℤ, pos,
}
use bff_rtc_base.WebSocket.{Socket, SocketEvent, notify_open, fire_close}

pub data FrameType : Type 0 where
  ping_pong close_type text binary : FrameType

-- `curl_ws_frame`
pub record FrameMeta : Type 0 where
  pub type : FrameType
  pub offset : ℕ
  pub bytesleft : ℕ

-- The code of a close frame and its reason; 1005, `NoCode`, where there are not two bytes.
unfoldable pub parse_close : Bytes → ℤ × Bytes
parse_close (b0 ∷ (b1 ∷ reason)) = (pos (b0 * 256 + b1), reason)
parse_close _ = (pos 1005, [])

-- A chunk starts over where it is the first, or not the one that is expected.
abbrev pub starts_over : ℕ → ℕ → Bool
starts_over offset expected =
    if offset == 0 then true else if offset == expected then false else true

unfoldable pub receive_close : FrameMeta → Bytes → Socket → Socket
unfolding parse_close fire_close
receive_close meta chunk s =
    let over = starts_over meta.offset s.close_expected_offset in
    let buf = if over then chunk else s.close_buf ++ chunk in
    let expected = if over then length chunk else s.close_expected_offset + length chunk in
    let (code, reason) = parse_close buf in
    if meta.bytesleft == 0
    then record (fire_close code reason true s) {
      aborted = true;
      close_buf = [];
      close_expected_offset = 0;
    }
    else record s { close_buf = buf; close_expected_offset = expected }

unfoldable pub receive_data : Bool → FrameMeta → Bytes → Socket → Socket
receive_data is_bin meta chunk s =
    let over = starts_over meta.offset s.rx_expected_offset in
    let buf = if over then chunk else s.rx_buf ++ chunk in
    let expected = if over then length chunk else s.rx_expected_offset + length chunk in
    let is_binary = if over then is_bin else s.rx_is_binary in
    if meta.bytesleft == 0
    then record s {
      rx_buf = [];
      rx_is_binary = is_binary;
      rx_expected_offset = 0;
      events = SocketEvent.received buf is_binary ∷ s.events;
    }
    else record s { rx_buf = buf; rx_is_binary = is_binary; rx_expected_offset = expected }

unfoldable pub receive_frame : FrameType → FrameMeta → Bytes → Socket → Socket
unfolding receive_close receive_data
receive_frame FrameType.ping_pong meta chunk s = s
receive_frame FrameType.close_type meta chunk s = receive_close meta chunk s
receive_frame FrameType.text meta chunk s = receive_data false meta chunk s
receive_frame FrameType.binary meta chunk s = receive_data true meta chunk s

-- No meta data where `curl_ws_meta` gives none.
unfoldable pub write_cb : Option FrameMeta → Bytes → Socket → Socket
unfolding notify_open receive_frame
write_cb none chunk s = s
write_cb (some meta) chunk s =
    if is_empty chunk then s else receive_frame meta.type meta chunk (notify_open s)
