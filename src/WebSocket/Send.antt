-- ===== src/WebSocket/Send.antt =====
-- The queue of what is to be sent (lines 361 to 444 and 763 to 784). `curl_ws_send` is a parameter:
-- what it answers for the rest of an item may depend on all that it has taken before.
use bff_rtc_base.Base.{
  ℕ, zero, suc, ◌/◌, ◌%◌, Bool, true, false, List, [], ◌∷◌, ◌++◌, Bytes, if◌then◌else◌, is_empty, ℤ,
  length, take, drop, to_u32,
}
use bff_rtc_base.WebSocket.{
  Socket, SendItem, FrameKind, SocketError, fire_error, handshake_http_code,
}

-- `CURLE_AGAIN` and `CURLE_SEND_ERROR` are tried again.
pub data SendCode : Type 0 where
  ok again : SendCode
  fatal : (code : ℤ) → (detail : Bytes) → SendCode

pub record SendAnswer : Type 0 where
  pub sent : ℕ
  pub code : SendCode

abbrev pub CurlSend : Type 0
CurlSend = List SendItem → SendItem → SendAnswer

-- What the code takes from libcurl; each of the two codes has its text.
pub record Curl : Type 0 where
  pub ws_send : CurlSend
  pub weird_reply : ℤ × Bytes
  pub http_returned_error : ℤ × Bytes

-- How sending one item ends; `unfinished` where the fuel is used up.
pub data ItemEnd : Type 0 where
  done retry unfinished : ItemEnd
  broken : (code : ℤ) → (detail : Bytes) → ItemEnd

-- The item's rest, what is on the wire, and the end.
abbrev pub Direct : Type 0
Direct = SendItem × List SendItem × ItemEnd

abbrev pub sent_part : ℕ → SendItem → List SendItem → List SendItem
sent_part n item wire = record item { payload = take n item.payload } ∷ wire

-- What follows an answer; `next` is the loop's next round.
abbrev pub after_answer : SendCode → (next : Direct) → (rest : SendItem) → List SendItem → Direct
after_answer SendCode.ok next rest wire = next
after_answer SendCode.again next rest wire = (rest, wire, ItemEnd.retry)
after_answer (SendCode.fatal code detail) next rest wire = (rest, wire, ItemEnd.broken code detail)

abbrev pub rest_of : ℕ → SendItem → SendItem
rest_of n item = record item { payload = drop n item.payload }

-- `while (!item.payload.empty())`
unfoldable pub send_direct : CurlSend → ℕ → SendItem → List SendItem → Direct
send_direct curl_ws_send zero item wire =
    (item, wire, if is_empty item.payload then ItemEnd.done else ItemEnd.unfinished)
send_direct curl_ws_send (suc fuel) item wire =
    let answer = curl_ws_send wire item in
    let rest = rest_of answer.sent item in
    let wire1 = sent_part answer.sent item wire in
    let next = send_direct curl_ws_send fuel rest wire1 in
    if is_empty item.payload
    then (item, wire, ItemEnd.done)
    else after_answer answer.code next rest wire1

-- A round takes a byte at least.
abbrev pub send_item : CurlSend → SendItem → List SendItem → Direct
send_item curl_ws_send item wire = send_direct curl_ws_send (length item.payload) item wire

-- The items that are left, what is on the wire, and the end.
abbrev pub Drained : Type 0
Drained = List SendItem × List SendItem × ItemEnd

-- An item that is not through goes back to the front; `next` is the loop's next round.
abbrev pub after_item :
    ItemEnd → (next : Drained) → SendItem → (items wire : List SendItem) → Drained
after_item ItemEnd.done next rest items wire = next
after_item end next rest items wire = (rest ∷ items, wire, end)

unfoldable pub drain : CurlSend → List SendItem → List SendItem → Drained
unfolding send_direct
drain curl_ws_send [] wire = ([], wire, ItemEnd.done)
drain curl_ws_send (item ∷ items) wire =
    let (rest, wire1, end) = send_item curl_ws_send item wire in
    after_item end (drain curl_ws_send items wire1) rest items wire1

-- `response` is the response code of libcurl.
abbrev pub after_drain : ℤ → ItemEnd → Socket → Socket
after_drain response (ItemEnd.broken code detail) s =
    let error : SocketError = record {
      curl_code = code;
      http_code = handshake_http_code response s;
      detail = detail;
    } in
    record (fire_error error s) { aborted = true }
after_drain response _ s = s

unfoldable pub flush_send_queue : CurlSend → ℤ → Socket → Socket
unfolding drain fire_error
flush_send_queue curl_ws_send response s =
    let (sendq, wire, end) = drain curl_ws_send s.sendq s.wire in
    if s.open_notified
    then after_drain response end (record s { sendq = sendq; wire = wire })
    else s

abbrev pub push_item : SendItem → Socket → Socket
push_item item s = record s { sendq = s.sendq ++ item ∷ [] }

-- `send`, and its result; the pointer is not null.
unfoldable pub send : Bytes → Bool → Socket → Socket × Bool
send payload binary s =
    let kind = if binary then FrameKind.binary else FrameKind.text in
    if s.running
    then (push_item (record { kind = kind; payload = payload }) s, true)
    else (s, false)

-- The two bytes of a code, an `int` of which the upper bits are dropped.
abbrev pub code_bytes : ℤ → Bytes
code_bytes code = let n = to_u32 code in (n / 256 % 256) ∷ (n % 256) ∷ []

-- At most 123 bytes of the reason.
unfoldable pub close_payload : ℤ → Bytes → Bytes
close_payload code reason = code_bytes code ++ take 123 reason

unfoldable pub queue_close_frame : ℤ → Bytes → Socket → Socket
unfolding close_payload
queue_close_frame code reason s =
    push_item (record { kind = FrameKind.close_frame; payload = close_payload code reason }) s
