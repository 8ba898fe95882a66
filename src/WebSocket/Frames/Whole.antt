-- ===== src/WebSocket/Frames/Whole.antt =====
-- A data frame that comes in parts (WebSocket.cpp, lines 266 to 336).
use bff_rtc_base.Base.{
  ◌≡◌, refl, sym, ap, ◌∙◌, ℕ, ◌≤◌, ◌+◌, ◌==◌, nat_eq, Bool, true, false, List, [], ◌∷◌, ◌++◌,
  append_assoc, append-nil, Bytes, some, length, length-append, All, is_empty, if-both, if-true,
  if-false, if◌then◌else◌, arith,
}
use bff_rtc_base.WebSocket.{Socket, SocketEvent, notify_open}
use bff_rtc_base.WebSocket.Frames.{
  FrameType, FrameMeta, starts_over, receive_data, receive_frame, write_cb,
}
use bff_rtc_base.WebSocket.Worker.{Input, take_inputs}

-- What arrives: a part of the frame, or, between the parts, one of a ping or a pong.
pub data Piece : Type 0 where
  part : (chunk : Bytes) → Piece
  control : (offset bytesleft : ℕ) → (chunk : Bytes) → Piece

-- The bytes of the frame.
unfoldable pub bytes_of : List Piece → Bytes
bytes_of [] = []
bytes_of (Piece.part chunk ∷ pieces) = chunk ++ bytes_of pieces
bytes_of (Piece.control offset bytesleft chunk ∷ pieces) = bytes_of pieces

abbrev type_of : Bool → FrameType
type_of true = FrameType.binary
type_of false = FrameType.text

-- libcurl's calls for the pieces, the next byte of the frame being that at `offset`.
unfoldable pub calls_for : (is_bin : Bool) → (offset : ℕ) → List Piece → List Input
unfolding bytes_of
calls_for is_bin offset [] = []
calls_for is_bin offset (Piece.part chunk ∷ pieces) =
    Input.written
      (some
        (record { type = type_of is_bin; offset = offset; bytesleft = length (bytes_of pieces) }))
      chunk
    ∷ calls_for is_bin (offset + length chunk) pieces
calls_for is_bin offset (Piece.control at bytesleft chunk ∷ pieces) =
    Input.written (some (record { type = FrameType.ping_pong; offset = at; bytesleft = bytesleft }))
      chunk
    ∷ calls_for is_bin offset pieces

-- No part is empty.
abbrev pub IsFull : Piece → Type 0
IsFull (Piece.part chunk) = 1 ≤ length chunk
IsFull (Piece.control offset bytesleft chunk) = Unit

-- In the middle of a frame, and behind it.
abbrev in_frame : Bytes → Bool → Socket → Socket
in_frame buf is_bin s = record s {
  rx_buf = buf;
  rx_is_binary = is_bin;
  rx_expected_offset = length buf;
}

abbrev pub delivered : Bytes → Bool → Socket → Socket
delivered buf is_bin s = record s {
  rx_buf = [];
  rx_is_binary = is_bin;
  rx_expected_offset = 0;
  events = SocketEvent.received buf is_bin ∷ s.events;
}

starts_over-next : (n : ℕ) → 1 ≤ n → starts_over n n ≡ false
starts_over-next n h = ground arith

full-some : (xs : Bytes) → 1 ≤ length xs → is_empty xs ≡ false
full-some [] h = absurd (omega arith)
full-some (x ∷ xs) h = refl

notify_open-opened : (s : Socket) → s.open_notified ≡ true → notify_open s ≡ s
unfolding notify_open
notify_open-opened s h = if-true s _ h

receive_frame-data :
    (is_bin : Bool) (meta : FrameMeta) (chunk : Bytes) (s : Socket)
    → receive_frame (type_of is_bin) meta chunk s ≡ receive_data is_bin meta chunk s
unfolding receive_frame
receive_frame-data true meta chunk s = refl
receive_frame-data false meta chunk s = refl

-- A call for a part of a frame on an open connection.
write_cb-data :
    (is_bin : Bool) (offset left : ℕ) (chunk : Bytes) (s : Socket)
    → 1 ≤ length chunk
    → s.open_notified ≡ true
    → let meta : FrameMeta = record { type = type_of is_bin; offset = offset; bytesleft = left } in
      write_cb (some meta) chunk s ≡ receive_data is_bin meta chunk s
unfolding write_cb
write_cb-data is_bin offset left chunk s full opened =
    let meta : FrameMeta = record { type = type_of is_bin; offset = offset; bytesleft = left } in
    if-false s (receive_frame meta.type meta chunk (notify_open s)) (full-some chunk full)
    ∙ ap (λ t. receive_frame (type_of is_bin) meta chunk t) (notify_open-opened s opened)
    ∙ receive_frame-data is_bin meta chunk s

zero_add : (n : ℕ) → 0 + n ≡ n
zero_add n = omega arith

-- What the code holds of a frame of which `left` bytes are to come.
abbrev held : ℕ → Bytes → Bool → Socket → Socket
held left buf is_bin s = if left == 0 then delivered buf is_bin s else in_frame buf is_bin s

receive_data-next :
    (is_bin : Bool) (type : FrameType) (left : ℕ) (buf chunk : Bytes) (s : Socket)
    → 1 ≤ length buf
    → receive_data is_bin
        (record { type = type; offset = length buf; bytesleft = left })
        chunk
        (in_frame buf is_bin s)
      ≡ held left (buf ++ chunk) is_bin s
unfolding receive_data
receive_data-next is_bin type left buf chunk s h =
    rw (starts_over-next (length buf) h, length-append buf chunk) refl

receive_data-first :
    (is_bin : Bool) (type : FrameType) (left : ℕ) (chunk : Bytes) (s : Socket)
    → receive_data is_bin (record { type = type; offset = 0; bytesleft = left }) chunk s
      ≡ held left chunk is_bin s
unfolding receive_data
receive_data-first is_bin type left chunk s = refl

held-opened :
    (left : ℕ) (buf : Bytes) (is_bin : Bool) (s : Socket)
    → s.open_notified ≡ true
    → (held left buf is_bin s).open_notified ≡ true
held-opened left buf is_bin s h = if-both (λ (x : Socket). x.open_notified ≡ true) (left == 0) h h

write_cb-control :
    (offset left : ℕ) (chunk : Bytes) (s : Socket)
    → s.open_notified ≡ true
    → write_cb
        (some (record { type = FrameType.ping_pong; offset = offset; bytesleft = left }))
        chunk
        s
      ≡ s
unfolding write_cb receive_frame
write_cb-control offset left chunk s opened =
    if-both (λ x. x ≡ s) (is_empty chunk) refl (notify_open-opened s opened)

held-some :
    (c : Bytes) (rest buf : Bytes) (is_bin : Bool) (s : Socket)
    → 1 ≤ length c
    → held (length (c ++ rest)) buf is_bin s ≡ in_frame buf is_bin s
held-some [] rest buf is_bin s h = absurd (omega arith)
held-some (x ∷ c) rest buf is_bin s h =
    if-false (delivered buf is_bin s) (in_frame buf is_bin s) (ground arith)

calls_for-rest :
    (is_bin : Bool) (pieces : List Piece) (buf : Bytes) (s : Socket)
    → s.open_notified ≡ true
    → All IsFull pieces
    → 1 ≤ length buf
    → take_inputs
        (calls_for is_bin (length buf) pieces)
        (held (length (bytes_of pieces)) buf is_bin s)
      ≡ delivered (buf ++ bytes_of pieces) is_bin s
unfolding calls_for take_inputs bytes_of
calls_for-rest is_bin [] buf s opened full some_buf =
    ap (λ b. delivered b is_bin s) (sym (append-nil buf))
calls_for-rest is_bin (Piece.control at left chunk ∷ pieces) buf s opened (_, full) some_buf =
    let now = held (length (bytes_of pieces)) buf is_bin s in
    ap (take_inputs (calls_for is_bin (length buf) pieces)) (
      write_cb-control at left chunk now
        (held-opened (length (bytes_of pieces)) buf is_bin s opened))
    ∙ calls_for-rest is_bin pieces buf s opened full some_buf
calls_for-rest is_bin (Piece.part chunk ∷ pieces) buf s opened (some_chunk, full) some_buf =
    let left = length (bytes_of pieces) in
    let meta : FrameMeta = record {
      type = type_of is_bin;
      offset = length buf;
      bytesleft = left;
    } in
    let inputs = λ (n : ℕ). calls_for is_bin n pieces in
    ap (λ x. take_inputs (inputs (length buf + length chunk)) (write_cb (some meta) chunk x))
      (held-some chunk (bytes_of pieces) buf is_bin s some_chunk)
    ∙ ap (take_inputs (inputs (length buf + length chunk))) (
        write_cb-data is_bin (length buf) left chunk (in_frame buf is_bin s) some_chunk opened
        ∙ receive_data-next is_bin (type_of is_bin) left buf chunk s some_buf)
    ∙ ap (λ n. take_inputs (inputs n) (held left (buf ++ chunk) is_bin s))
        (sym (length-append buf chunk))
    ∙ calls_for-rest is_bin pieces (buf ++ chunk) s opened full
        (omega (arith, length-append buf chunk))
    ∙ ap (λ b. delivered b is_bin s) (append_assoc buf chunk (bytes_of pieces))

-- On an open connection a text or binary frame that comes in parts, none of them empty, with pings
-- and pongs between them, is given to the application once, whole and with its kind, when its last
-- part is there, whatever an earlier frame that broke off has left.
pub take_inputs-calls_for :
    (is_bin : Bool) (chunk : Bytes) (pieces : List Piece) (s : Socket)
    → s.open_notified ≡ true
    → All IsFull (Piece.part chunk ∷ pieces)
    → take_inputs (calls_for is_bin 0 (Piece.part chunk ∷ pieces)) s
      ≡ delivered (bytes_of (Piece.part chunk ∷ pieces)) is_bin s
unfolding calls_for take_inputs bytes_of
take_inputs-calls_for is_bin chunk pieces s opened (some_chunk, full) =
    let left = length (bytes_of pieces) in
    let meta : FrameMeta = record { type = type_of is_bin; offset = 0; bytesleft = left } in
    ap (λ n. take_inputs (calls_for is_bin n pieces) (write_cb (some meta) chunk s))
      (zero_add (length chunk))
    ∙ ap (take_inputs (calls_for is_bin (length chunk) pieces)) (
        write_cb-data is_bin 0 left chunk s some_chunk opened
        ∙ receive_data-first is_bin (type_of is_bin) left chunk s)
    ∙ calls_for-rest is_bin pieces chunk s opened full some_chunk
