-- ===== src/Lib.antt =====
-- A model of Cloak, and its theorems. Cloak hides a proxy from censors: the client
-- (internal/client) authenticates itself inside what looks like a TLS or WebSocket handshake, the
-- server (internal/server) recognises it, and both sides then multiplex streams over a pool of
-- connections (internal/multiplex). A connection that is not a client's is redirected.
--
-- The parts, in the order in which data passes them:
--   Ecdh: internal/ecdh/curve25519.go (GenerateKey, Unmarshal, GenerateSharedSecret) and AESGCMEncrypt
--     and AESGCMDecrypt of internal/common/crypto.go. The curve and AES-GCM are the records Curve and
--     AesGcm, with what their documentation promises.
--   Client/Options: ssvToJson of internal/client/state.go, the options of an Android plugin;
--     Client/Options/Members.
--   Client/Config: ProcessRawConfig of internal/client/state.go, and CreateTransport of
--     internal/client/transport.go; Client/Config/Complete.
--   Client/Connector: MakeSession of internal/client/connector.go; Fallback is about the attempts of
--     one connection, and Started about the session.
--   Client/Auth: makeAuthenticationPayload of internal/client/auth.go.
--   Client/Tls: DirectTLS.Handshake of internal/client/TLS.go, from its first read on.
--   Tls: internal/common/tls.go (AddRecordLayer, TLSConn.Read, TLSConn.Write); Tls/Records.
--   Server/Tls: internal/server/TLSAux.go (parseExtensions, parseKeyShare, parseClientHello,
--     composeServerHello, composeReply) and TLS.go (unmarshalClientHello, makeResponder);
--     Server/Tls/Reply.
--   Server/Config: ParseConfig, parseRedirAddr, parseProxyBook and InitState of
--     internal/server/state.go, over the record Platform of what the network and the database answer.
--     Addresses is about RedirAddr, Book about ProxyBook, Bypass about BypassUID and IsBypass.
--   CkServer: the addresses that cmd/ck-server/ck-server.go listens on (resolveBindAddr,
--     parseSSBindAddr and the choice in main); CkServer/Covered.
--   WebSocket: WebSocketConn.Read of internal/common/websocket.go; WebSocket/Whole.
--   Client/WebSocket: WSOverTLS.Handshake of internal/client/websocket.go, from its first read on.
--   Server/WebSocket: unmarshalHidden of internal/server/websocket.go and what its responder writes;
--     Server/WebSocket/Reply.
--   Server/Auth: internal/server/auth.go (decryptClientInfo, AuthFirstPacket), and registerRandom and
--     UsedRandomCleaner of internal/server/state.go; Server/Auth/Replay, and Server/Auth/Plaintext and
--     Server/Auth/Handshake against the client's side.
--   Server/UserManager: internal/server/usermanager/localmanager.go, over the interface Bolt to the
--     database; Server/UserManager/Usage, Server/UserManager/Decisions and
--     Server/UserManager/Accounts. Server/UserManager/Routes has the handlers of
--     internal/server/usermanager/api_router.go, and Routes/Written is about them.
--   Server/UserPanel: internal/server/userpanel.go and activeuser.go, with the counters of
--     internal/multiplex/qos.go. The parent has the way of the usage to the upload (updateUsageQueue,
--     updateUsageQueueForOne and the statuses of commitUpdate), and Server/UserPanel/Users who is
--     active and with which sessions (GetUser, GetBypassUser, TerminateActiveUser, GetSession,
--     CloseSession), over the record UserManager of the two questions that it asks, which
--     Server/UserPanel/Managers fills with the local and the void manager. Server/UserPanel/Calls has
--     sequences of these calls; Accounting, Cap and Ledger, with Valves, are about them. A CloseSession
--     of a user object that has left the map is close_session_late, and Late is about it.
--     Server/UserPanel/Round has the whole of commitUpdate with the answers of the manager and a round
--     of regularQueueUpload; Listing, Enforced and Failure are about it.
--   Server/FirstPacket: readFirstPacket and connReadLine of internal/server/dispatcher.go;
--     Server/FirstPacket/Transparent.
--   Server/Dispatcher: dispatchConnection of internal/server/dispatcher.go with AuthFirstPacket and
--     processFirstPacket of both transports. Its state is the panel, the replay cache and the
--     configuration; what the network and the libraries do is in Env, one for each connection.
--     Redirection, Admission, Once and ServedOnce are about it.
--   Multiplex/Frame and Multiplex/Obfs: frame.go and obfs.go of internal/multiplex, a frame and its
--     bytes on the wire; Multiplex/Obfs/RoundTrip.
--   Multiplex/Session: session.go, stream.go and switchboard.go. State has the records and the maps,
--     Switchboard the connections, Close and Streams the operations; Closed, Tombstone and Opening are
--     about them. A session hands the frames of a stream to its receive buffer. Sending and Writing
--     follow Stream.Write to the connections, Receiving the loop of deplex at the other end, and
--     Delivery puts the two ends together.
--   Multiplex/StreamBuffer, Multiplex/StreamPipe and Multiplex/DatagramPipe: the receive buffers
--     streamBuffer.go, streamBufferedPipe.go and datagramBufferedPipe.go; Receive, Fifo and Messages
--     are about them, and Ordering, InOrder and Heap serve Receive.
--   Prelude: lists, texts, tests on numbers and big-endian integers. Tests: runs at concrete inputs.
--
-- State is passed explicitly, and each operation is one step on it. A call that would wait says so in
-- its result: the write of a frame to a receive buffer that is over its limit is the error recv_waits
-- of a session, and the field blocked of an Outcome. Numbers are natural numbers, with the wrap-around of uint32, uint64 and int64 written
-- out; a byte is below 256 where the code makes it one. Errors are results, and so are panics where
-- the code recovers from them or where they matter.
--
-- Loops on fuel: the heap is drained with its length for fuel, and each round takes one frame away;
-- Stream.Write has the length of its input, and each round sends a byte at least unless the unit of
-- writing is 0; the extensions and the key shares of a ClientHello have the length of their input, and
-- each round consumes four bytes; the lines of a request have the size of the buffer, and each line
-- takes a byte of it at least; a message of a websocket has one more than its length, and each call
-- of its reader gives a byte unless the slice is full. The attempts to connect are repeated without
-- end in the code; the fuel that a client needs is two rounds more than the attempt from which the
-- server can be reached.
--
-- Not modelled: container/heap, the ciphers, the curve, bbolt, the sources of randomness, the
-- reading of files and of JSON and the resolution of addresses are parameters with their documented
-- behaviour. strings.ToLower is that of ASCII text. Locks, goroutines, deadlines of connections,
-- rate limiting, logging, the dispatch of HTTP requests to their handlers, the loop that accepts
-- the streams of a session, the copying between connections and streams, and what else the commands
-- under cmd do are left out, and so are the errors of committing a database transaction. The calls
-- of one connection to the user panel are not interleaved with those of another, and the replay
-- cache is not swept between connections. Of a user object that has left the map, GetSession is not
-- modelled, and what its connections count after its valve was emptied is seen only as the state
-- that a late CloseSession finds.
pub mod CkServer
pub mod Client
pub mod Ecdh
pub mod Multiplex
pub mod Prelude
pub mod Server
pub mod WebSocket
pub mod Tests
pub mod Tls
