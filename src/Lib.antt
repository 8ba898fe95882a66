-- ===== src/Lib.antt =====
-- Verification library for BffRtcBase, the signaling core of an RTC client.
--
-- The program keeps one connection to a signaling server. `Signal.cpp` holds it: it opens a
-- WebSocket over TCP (`WebSocket.cpp`), over QUIC (`QuicSocket.cpp`), or both in a race, sends
-- requests, and reconnects when a transport fails. The URL it opens carries a token
-- (`HttpClient.cpp`) and may be rewritten to present a TLS name (`SniUrl.cpp`). The nodes that
-- carry the media are measured with STUN, and the two peers choose one of them (`stun_test.cpp`).
--
-- The files:
-- - Base and its children: Boolean tests, lists, the searches and numbers of `std::string`, maps as
--   association lists, signed integers.
-- - Url: `hostFromUrl`, `portFromUrl` and `sniHostForUrl` of Signal.cpp, `hostFromAddr` and
--   `replaceHost` of NodeSelector.cpp, `normalizeWsUrl` of WebSocket.cpp. Url/Sni: SniUrl.cpp.
--   Url/Token: `replaceTokenQuery` of HttpClient.cpp.
-- - Stun: `parse` of stun_test.cpp. Stun/Collect: `SortStun`, with the answers of the socket as an
--   argument, one for each round of its loop. Stun/Nodes: `normalizeNodeIp` and `findBestNode`.
-- - Signal/Config: defs.h. Signal/Race: the fields under `race_mtx` and each block that holds the
--   mutex. Signal/State: the other fields of `Signal::Private`. Signal/Send: `sendRequest` and what
--   keeps requests for later. Signal/Connection: the callbacks of the transports, `failFatal` and
--   `scheduleReconnect`. Signal/Connect: `beginConnect`, `disconnect` and the threads that sleep.
--   Signal/Builders: the methods that send a message. Signal/NodeRtts: the cache of the nodes' round
--   trips. Signal/Settings: listeners, setters and the destructor. Signal/Response: the messages of
--   the server. Signal/Receive: `onTransportRecv` and `handleReceiveSignalResponse`.
-- - WebSocket: the fields of `WebSocket::Private` and what ends a connection. WebSocket/Send: the
--   queue of what is sent. WebSocket/Frames: `write_cb`. WebSocket/Worker: the loop of the worker
--   thread and `requestClose`. WebSocket/Life: `open`, the thread's function, `close`.
-- - NodeSelector: the fields, `applyNodeRtts` and the flag that cancels. NodeSelector/Lists:
--   `updateNodes`, `asyncSort` and `onNodeList`. NodeSelector/BestUrl: `getBestUrl`.
-- - SignalChannel: `applyJoinedPeers` and `removePeer` of SignalChannel.cpp.
-- - FileLogger: FileLogger.cpp, the queue, the worker, `newLog`, `log`, `write` and `stop`;
--   FileLogger/Meta: the rooms and upload servers of the logs, the list of the logs, their removal.
-- - Tests: the theorems at concrete inputs.
--
-- A handler of Signal.cpp is a function on `Private`, which carries a trace of what the code has
-- done outside: transports opened and closed, bytes sent, threads started, listeners called. What
-- the transports answer is a parameter, `Links`, of that trace. A thread that sleeps is an entry of
-- the trace, and a function of the generation that it keeps; `Step` puts them, the callbacks and
-- the calls of the user in any order, and `Course` adds the responses and the calls of `beginConnect`
-- that are on their way. A handler runs without interruption, but for the callbacks
-- that come in while `close` joins the old transports: they are an argument of the functions that
-- join. A `QuicSocket::open` that fails calls `onQuicError` before it returns; `Links` has the error.
-- The handler of responses runs on the thread of a transport, which cannot join itself: there the
-- trace ends with the entry `joined_itself`, and the states behind it do not come. Atomic counters wrap at their width; the counter of reconnections does not reach that of
-- `int` under its bound.
--
-- The worker thread of a WebSocket is a fold over the rounds of its loop. A round has what libcurl
-- and the application do in it, calls of `send` and `closeAsync` before the rest; what
-- `curl_ws_send` answers may depend on all that it has taken. Sending one item is on fuel, as many
-- rounds as it has bytes. The options of libcurl, the pipe that wakes the thread and the timeouts of
-- its polls change no field and are left out.
--
-- The loop of `parse` is on fuel, one round more than the bytes it may look at, which is enough
-- since each round goes on by four bytes at least. Whatever the code reads outside the answer is
-- an outcome of its own; an answer has 1000 bytes, however many have come in. The loss of a node is
-- an `int` of 32 bits, kept plus 2^31 so that it is a natural number. Bytes are numbers; `inet_pton`, the codec of protobuf and the codes of
-- libcurl are parameters.
--
-- Not modelled: the transport over QUIC, the JSON of messages, the encoder of SDP;
-- third-party code, bindings and tables of certificates.
pub mod Base
pub mod Url
pub mod Stun
pub mod Signal
pub mod WebSocket
pub mod NodeSelector
pub mod SignalChannel
pub mod FileLogger
pub mod Tests
