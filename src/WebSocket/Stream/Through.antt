-- ===== src/WebSocket/Stream/Through.antt =====
-- The loop that sends an item (WebSocket.cpp, lines 389 to 413), and how far a flush comes.
use bff_rtc_base.Base.{
  ◌≡◌, ◌≢◌, ◌≤◌, refl, sym, ap, ◌∙◌, ℕ, zero, suc, true, false, List, [], ◌∷◌, ◌++◌, append-nil,
  Bytes, ℤ, if-both, if-true, if-cases, is_empty, length, length-drop, arith, true≢false,
}
use bff_rtc_base.WebSocket.{Socket, SendItem}
use bff_rtc_base.WebSocket.Send.{
  CurlSend, SendCode, ItemEnd, Direct, Drained, sent_part, after_answer, rest_of, send_direct,
  send_item, after_item, drain, flush_send_queue, after_drain,
}
use bff_rtc_base.WebSocket.Stream.{wire_stream, queue_stream, stream_of, drain-stream}

-- A call that succeeds has taken a byte of an item that has one.
abbrev pub Advances : CurlSend → Type 0
Advances curl_ws_send =
    (wire : List SendItem) (item : SendItem)
    → (curl_ws_send wire item).code ≡ SendCode.ok
    → 1 ≤ (curl_ws_send wire item).sent

-- Every call succeeds.
abbrev pub IsWritable : CurlSend → Type 0
IsWritable curl_ws_send =
    (wire : List SendItem) (item : SendItem) → (curl_ws_send wire item).code ≡ SendCode.ok

empty-length : (xs : Bytes) → length xs ≤ 0 → is_empty xs ≡ true
empty-length [] h = refl
empty-length (x ∷ xs) h = absurd (omega arith)

some-length : (xs : Bytes) → is_empty xs ≡ false → 1 ≤ length xs
some-length [] h = absurd (true≢false h)
some-length (x ∷ xs) h = omega arith

after_answer-ends :
    (code : SendCode) (next : Direct) (rest : SendItem) (wire : List SendItem)
    → (code ≡ SendCode.ok → next.2 ≢ ItemEnd.unfinished)
    → (after_answer code next rest wire).2 ≢ ItemEnd.unfinished
after_answer-ends SendCode.ok next rest wire h e = h refl e
after_answer-ends SendCode.again next rest wire h e = cc
after_answer-ends (SendCode.fatal code detail) next rest wire h e = cc

rest_of-length :
    (n fuel : ℕ) (item : SendItem)
    → 1 ≤ n
    → length item.payload ≤ suc fuel
    → length (rest_of n item).payload ≤ fuel
rest_of-length n fuel item some h = omega (arith, length-drop n item.payload)

send_direct-ends :
    (curl_ws_send : CurlSend) (fuel : ℕ) (item : SendItem) (wire : List SendItem)
    → Advances curl_ws_send
    → length item.payload ≤ fuel
    → (send_direct curl_ws_send fuel item wire).2 ≢ ItemEnd.unfinished
unfolding send_direct
send_direct-ends curl_ws_send zero item wire advances enough =
    if-cases (λ (e : ItemEnd). e ≢ ItemEnd.unfinished) (is_empty item.payload) (λ _ e. cc)
      (λ h. absurd (true≢false (sym (empty-length item.payload enough) ∙ h)))
send_direct-ends curl_ws_send (suc fuel) item wire advances enough =
    let answer = curl_ws_send wire item in
    let rest = rest_of answer.sent item in
    let wire1 = sent_part answer.sent item wire in
    if-cases (λ (r : Direct). r.2 ≢ ItemEnd.unfinished) (is_empty item.payload) (λ _ e. cc)
      (λ _.
        after_answer-ends answer.code (send_direct curl_ws_send fuel rest wire1) rest wire1 (λ ok.
          send_direct-ends curl_ws_send fuel rest wire1 advances
            (rest_of-length answer.sent fuel item (advances wire item ok) enough)))

after_item-ends :
    (end : ItemEnd) (next : Drained) (rest : SendItem) (items wire : List SendItem)
    → end ≢ ItemEnd.unfinished
    → next.2 ≢ ItemEnd.unfinished
    → (after_item end next rest items wire).2 ≢ ItemEnd.unfinished
after_item-ends ItemEnd.done next rest items wire h k = k
after_item-ends ItemEnd.retry next rest items wire h k = h
after_item-ends ItemEnd.unfinished next rest items wire h k = h
after_item-ends (ItemEnd.broken code detail) next rest items wire h k = h

-- Where a call of `curl_ws_send` that succeeds takes a byte at least, the loops that send the queue
-- end: an item needs no more rounds than it has bytes.
pub drain-ends :
    (curl_ws_send : CurlSend) (items wire : List SendItem)
    → Advances curl_ws_send
    → (drain curl_ws_send items wire).2 ≢ ItemEnd.unfinished
unfolding drain
drain-ends curl_ws_send [] wire advances = λ (e : ItemEnd.done ≡ ItemEnd.unfinished). cc
drain-ends curl_ws_send (item ∷ items) wire advances =
    let (rest, wire1, end) = send_item curl_ws_send item wire in
    after_item-ends end (drain curl_ws_send items wire1) rest items wire1
      (send_direct-ends curl_ws_send (length item.payload) item wire advances (omega arith))
      (drain-ends curl_ws_send items wire1 advances)

after_answer-ok :
    (code : SendCode) (next : Direct) (rest : SendItem) (wire : List SendItem)
    → code ≡ SendCode.ok
    → next.2 ≡ ItemEnd.done
    → (after_answer code next rest wire).2 ≡ ItemEnd.done
after_answer-ok SendCode.ok next rest wire h d = d
after_answer-ok SendCode.again next rest wire h d = cc
after_answer-ok (SendCode.fatal code detail) next rest wire h d = cc

send_direct-through :
    (curl_ws_send : CurlSend) (fuel : ℕ) (item : SendItem) (wire : List SendItem)
    → Advances curl_ws_send
    → IsWritable curl_ws_send
    → length item.payload ≤ fuel
    → (send_direct curl_ws_send fuel item wire).2 ≡ ItemEnd.done
unfolding send_direct
send_direct-through curl_ws_send zero item wire advances ok enough =
    if-cases (λ (e : ItemEnd). e ≡ ItemEnd.done) (is_empty item.payload) (λ _. refl)
      (λ h. absurd (true≢false (sym (empty-length item.payload enough) ∙ h)))
send_direct-through curl_ws_send (suc fuel) item wire advances ok enough =
    let answer = curl_ws_send wire item in
    let rest = rest_of answer.sent item in
    let wire1 = sent_part answer.sent item wire in
    if-both (λ (r : Direct). r.2 ≡ ItemEnd.done) (is_empty item.payload) refl
      (after_answer-ok answer.code (send_direct curl_ws_send fuel rest wire1) rest wire1
        (ok wire item)
        (send_direct-through curl_ws_send fuel rest wire1 advances ok
          (rest_of-length answer.sent fuel item (advances wire item (ok wire item)) enough)))

after_item-through :
    (end : ItemEnd) (next : Drained) (rest : SendItem) (items wire : List SendItem)
    → end ≡ ItemEnd.done
    → (next.0 ≡ []) × (next.2 ≡ ItemEnd.done)
    → ((after_item end next rest items wire).0 ≡ [])
      × ((after_item end next rest items wire).2 ≡ ItemEnd.done)
after_item-through ItemEnd.done next rest items wire h k = k
after_item-through ItemEnd.retry next rest items wire h k = cc
after_item-through ItemEnd.unfinished next rest items wire h k = cc
after_item-through (ItemEnd.broken code detail) next rest items wire h k = cc

drain-through :
    (curl_ws_send : CurlSend) (items wire : List SendItem)
    → Advances curl_ws_send
    → IsWritable curl_ws_send
    → ((drain curl_ws_send items wire).0 ≡ []) × ((drain curl_ws_send items wire).2 ≡ ItemEnd.done)
unfolding drain
drain-through curl_ws_send [] wire advances ok = (refl, refl)
drain-through curl_ws_send (item ∷ items) wire advances ok =
    let (rest, wire1, end) = send_item curl_ws_send item wire in
    after_item-through end (drain curl_ws_send items wire1) rest items wire1
      (send_direct-through curl_ws_send (length item.payload) item wire advances ok (omega arith))
      (drain-through curl_ws_send items wire1 advances ok)

after_drain-done :
    (response : ℤ) (end : ItemEnd) (s : Socket)
    → end ≡ ItemEnd.done
    → after_drain response end s ≡ s
after_drain-done response end s h = ap (λ e. after_drain response e s) h

-- Where the connection is open and every call of `curl_ws_send` succeeds and takes a byte at least,
-- a flush empties the queue, and what is on the wire is all that was submitted, in its order.
pub flush_send_queue-through :
    (curl_ws_send : CurlSend) (response : ℤ) (s : Socket)
    → Advances curl_ws_send
    → IsWritable curl_ws_send
    → s.open_notified ≡ true
    → let after = flush_send_queue curl_ws_send response s in
      (after.sendq ≡ []) × (wire_stream after.wire ≡ stream_of s)
unfolding flush_send_queue queue_stream
flush_send_queue-through curl_ws_send response s advances ok opened =
    let (items, wire, end) = drain curl_ws_send s.sendq s.wire in
    let (empty, done) = drain-through curl_ws_send s.sendq s.wire advances ok in
    let drained : Socket = record s { sendq = items; wire = wire } in
    let same : flush_send_queue curl_ws_send response s ≡ drained =
      if-true (after_drain response end drained) s opened
      ∙ after_drain-done response end drained done in
    (
      ap (λ (x : Socket). x.sendq) same ∙ empty,
      ap (λ (x : Socket). wire_stream x.wire) same
          ∙ sym (append-nil (wire_stream wire))
          ∙ ap (λ q. wire_stream wire ++ queue_stream q) (sym empty)
          ∙ drain-stream curl_ws_send s.sendq s.wire,
    )
