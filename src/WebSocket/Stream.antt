-- ===== src/WebSocket/Stream.antt =====
-- What is sent as one stream of bytes (WebSocket.cpp, lines 379 to 441 and 763 to 784): the bytes
-- that libcurl has taken, then those that wait.
pub mod Order
pub mod Through
use bff_rtc_base.Base.{
  ◌≡◌, ◌≢◌, ◌≤◌, ◌<◌, refl, sym, ap, ◌∙◌, ℕ, zero, suc, Bool, true, false, List, [], ◌∷◌, ◌++◌, map,
  append_assoc, append-nil, Bytes, ℤ, if-both, if-cases, is_empty, length, take, drop,
  take-append-drop, length-drop, arith, true≢false, if◌then◌else◌,
}
use bff_rtc_base.WebSocket.{Socket, SendItem, FrameKind, fire_error}
use bff_rtc_base.WebSocket.Send.{
  CurlSend, SendAnswer, SendCode, ItemEnd, Direct, Drained, sent_part, after_answer, rest_of,
  send_direct, send_item, after_item, drain, after_drain, flush_send_queue, send, push_item,
}

-- A byte with the kind of its frame.
abbrev pub Tagged : Type 0
Tagged = FrameKind × ℕ

abbrev pub tag : SendItem → List Tagged
tag item = map (λ b. (item.kind, b)) item.payload

-- The newest part is the first of the list.
unfoldable pub wire_stream : List SendItem → List Tagged
wire_stream [] = []
wire_stream (item ∷ wire) = wire_stream wire ++ tag item

unfoldable pub queue_stream : List SendItem → List Tagged
queue_stream [] = []
queue_stream (item ∷ items) = tag item ++ queue_stream items

abbrev pub stream_of : Socket → List Tagged
stream_of s = wire_stream s.wire ++ queue_stream s.sendq

map-append {ℓ k} :
    {A : Type ℓ} {B : Type k} (f : A → B) (xs ys : List A) → map f (xs ++ ys) ≡ map f xs ++ map f ys
map-append f [] ys = refl
map-append f (x ∷ xs) ys = ap (◌∷◌ (f x)) (map-append f xs ys)

tag-parts :
    (n : ℕ) (item : SendItem)
    → map (λ b. (item.kind, b)) (take n item.payload) ++ tag (rest_of n item) ≡ tag item
tag-parts n item =
    sym (map-append _ (take n item.payload) (drop n item.payload))
    ∙ ap (map (λ b. (item.kind, b))) (take-append-drop n item.payload)

sent_part-stream :
    (n : ℕ) (item : SendItem) (wire : List SendItem)
    → wire_stream (sent_part n item wire) ++ tag (rest_of n item) ≡ wire_stream wire ++ tag item
unfolding wire_stream
sent_part-stream n item wire =
    append_assoc (wire_stream wire) _ _ ∙ ap (◌++◌ (wire_stream wire)) (tag-parts n item)

after_answer-both {ℓ} :
    (P : Direct → Type ℓ) (code : SendCode) (next : Direct) (rest : SendItem) (wire : List SendItem)
    → P next
    → ((end : ItemEnd) → P (rest, wire, end))
    → P (after_answer code next rest wire)
after_answer-both P SendCode.ok next rest wire p q = p
after_answer-both P SendCode.again next rest wire p q = q ItemEnd.retry
after_answer-both P (SendCode.fatal code detail) next rest wire p q = q (ItemEnd.broken code detail)

send_direct-stream :
    (curl_ws_send : CurlSend) (fuel : ℕ) (item : SendItem) (wire : List SendItem)
    → let r = send_direct curl_ws_send fuel item wire in
      wire_stream r.1 ++ tag r.0 ≡ wire_stream wire ++ tag item
unfolding send_direct
send_direct-stream curl_ws_send zero item wire = refl
send_direct-stream curl_ws_send (suc fuel) item wire =
    let answer = curl_ws_send wire item in
    let rest = rest_of answer.sent item in
    let wire1 = sent_part answer.sent item wire in
    let next = send_direct curl_ws_send fuel rest wire1 in
    let kept = sent_part-stream answer.sent item wire in
    if-both (λ (r : Direct). wire_stream r.1 ++ tag r.0 ≡ wire_stream wire ++ tag item)
      (is_empty item.payload) refl
      (after_answer-both (λ (r : Direct). wire_stream r.1 ++ tag r.0 ≡ wire_stream wire ++ tag item)
        answer.code next rest wire1 (send_direct-stream curl_ws_send fuel rest wire1 ∙ kept)
        (λ end. kept))

after_item-both {ℓ} :
    (P : Drained → Type ℓ) (end : ItemEnd) (next : Drained) (rest : SendItem)
    (items wire : List SendItem)
    → (end ≡ ItemEnd.done → P next)
    → P (rest ∷ items, wire, end)
    → P (after_item end next rest items wire)
after_item-both P ItemEnd.done next rest items wire p q = p refl
after_item-both P ItemEnd.retry next rest items wire p q = q
after_item-both P ItemEnd.unfinished next rest items wire p q = q
after_item-both P (ItemEnd.broken code detail) next rest items wire p q = q

empty→[] {ℓ} : {A : Type ℓ} (xs : List A) → is_empty xs ≡ true → xs ≡ []
empty→[] [] h = refl
empty→[] (x ∷ xs) h = absurd (true≢false (sym h))

answer-done :
    (code : SendCode) (next : Direct) (rest : SendItem) (wire : List SendItem)
    → (next.2 ≡ ItemEnd.done → next.0.payload ≡ [])
    → (after_answer code next rest wire).2 ≡ ItemEnd.done
    → (after_answer code next rest wire).0.payload ≡ []
answer-done SendCode.ok next rest wire h e = h e
answer-done SendCode.again next rest wire h e = cc
answer-done (SendCode.fatal code detail) next rest wire h e = cc

-- An item that is through has no bytes left.
send_direct-done :
    (curl_ws_send : CurlSend) (fuel : ℕ) (item : SendItem) (wire : List SendItem)
    → let r = send_direct curl_ws_send fuel item wire in r.2 ≡ ItemEnd.done → r.0.payload ≡ []
unfolding send_direct
send_direct-done curl_ws_send zero item wire =
    if-cases (λ (e : ItemEnd). e ≡ ItemEnd.done → item.payload ≡ []) (is_empty item.payload)
      (λ h _. empty→[] item.payload h) (λ _ h. cc)
send_direct-done curl_ws_send (suc fuel) item wire =
    let answer = curl_ws_send wire item in
    let rest = rest_of answer.sent item in
    let wire1 = sent_part answer.sent item wire in
    if-cases (λ (r : Direct). r.2 ≡ ItemEnd.done → r.0.payload ≡ []) (is_empty item.payload)
      (λ h _. empty→[] item.payload h)
      (λ _.
        answer-done answer.code (send_direct curl_ws_send fuel rest wire1) rest wire1
          (send_direct-done curl_ws_send fuel rest wire1))

done-stream : (item : SendItem) (xs : List Tagged) → item.payload ≡ [] → xs ≡ xs ++ tag item
done-stream item xs h = sym (append-nil xs) ∙ ap (λ p. xs ++ map (λ b. (item.kind, b)) p) (sym h)

-- The loop takes nothing from the stream and changes no order.
pub drain-stream :
    (curl_ws_send : CurlSend) (items wire : List SendItem)
    → let r = drain curl_ws_send items wire in
      wire_stream r.1 ++ queue_stream r.0 ≡ wire_stream wire ++ queue_stream items
unfolding drain queue_stream
drain-stream curl_ws_send [] wire = refl
drain-stream curl_ws_send (item ∷ items) wire =
    let r = send_item curl_ws_send item wire in
    let kept = send_direct-stream curl_ws_send (length item.payload) item wire in
    let goal = wire_stream wire ++ (tag item ++ queue_stream items) in
    let empty = λ (done : r.2 ≡ ItemEnd.done).
      send_direct-done curl_ws_send (length item.payload) item wire done in
    after_item-both (λ (d : Drained). wire_stream d.1 ++ queue_stream d.0 ≡ goal) r.2
      (drain curl_ws_send items r.1) r.0 items r.1
      (λ done.
        drain-stream curl_ws_send items r.1
        ∙ ap (λ x. x ++ queue_stream items) (done-stream r.0 (wire_stream r.1) (empty done) ∙ kept)
        ∙ append_assoc (wire_stream wire) (tag item) (queue_stream items))
      (sym (append_assoc (wire_stream r.1) (tag r.0) (queue_stream items))
        ∙ ap (λ x. x ++ queue_stream items) kept
        ∙ append_assoc (wire_stream wire) (tag item) (queue_stream items))
