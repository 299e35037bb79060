-- ===== src/Lib.antt =====
-- Verification of rtsp-proxy, an RTSP proxy that keeps one connection to each camera and fans its
-- packets out to many clients.
--
-- A client (rtspproxy/client.go) names its target in its first request. The stream manager
-- (stream_manager.go) keeps one stream for each target. A stream (stream.go) has a state machine
-- and a connect loop, which dials the camera through a remote (remote.go, with the authentication
-- of digest.go), runs the requests of a session (session.go, transport.go, substream.go), and reads
-- packets and messages (message.go, response.go) from the connection. Packets go to the queues of
-- the client sessions (client_session.go), whose goroutines hand them to the writers of the clients.
--
-- Files, with the code that each one models:
--   Message          rtspproxy/message.go: sharedLineSplit, canonicalHeaderKey, headerGet,
--                    sharedParseHeader, sharedParseContentLength, indexBytes
--   HeaderBlock      the header loop and header printing of request.go and response.go
--   Response         rtspproxy/response.go
--   Request, Url     rtspproxy/request.go; url.Parse and URL.String are parameters
--   Digest           rtspproxy/digest.go: ComputeResponse, ParseWWWAuthenticate, RandomNonce and
--                    ParseAuthorizationHeader; MD5 in hex, random bytes and fmt.Sscanf are parameters
--   Transport        rtspproxy/transport.go and rtspproxy/substream.go
--   Session          rtspproxy/session.go: LookupTransport, StartUpstream, Stop
--   ClientSession    rtspproxy/client_session.go: Start, Stop, Push and the rounds of run
--   Remote           rtspproxy/remote.go: dialLocked, SendRequest, SendTeardown, SendBinary,
--                    Disconnect, handleAuthenticationFailure, createAuthenticatorStr,
--                    parseTransport
--   Handlers         rtspproxy/remote.go: handleOptions, handleDescribe, handleSetup, handlePlay and
--                    handleTeardown
--   Upstream         rtspproxy/remote.go: HandleUpstreamResponse
--   Exchange         rtspproxy/ipc.go, and SendRequestSync of rtspproxy/remote.go
--   Sequence         rtspproxy/remote.go: GetOptions, GetSDP, SetupUpstream, PlayUpstream and
--                    LookupTransport; doConnectSequence of rtspproxy/stream.go
--   Ticker           the keep-alive goroutine of rtspproxy/session.go
--   Stream           rtspproxy/stream.go: states, transition, unsafeSetState, AddClient,
--                    RemoveClient, Start, MapChannel, LookupSession; Stream.Waiting has the channels
--                    on which clients wait
--   Lifecycle        rtspproxy/stream.go: Stop, Destroy and the idle timer
--   ConnectLoop      connectLoop of rtspproxy/stream.go
--   Tracks           parseTracks of rtspproxy/stream.go
--   Framing          readLoop of rtspproxy/stream.go: the cutting of the bytes
--   ReadLoop         readLoop of rtspproxy/stream.go: what becomes of the items
--   Fanout           dispatch of rtspproxy/stream.go
--   Manager          rtspproxy/stream_manager.go: GetStream, RemoveStream, Shutdown
--   Client           rtspproxy/client.go: the target of a client, the answers to OPTIONS, DESCRIBE,
--                    PLAY, TEARDOWN and GET_PARAMETER, and the headers of every answer
--   Setup            rtspproxy/client.go: handleSetup
--   ClientLoop       rtspproxy/client.go: incomingRequestHandler
--   ClientWriter     rtspproxy/client.go: NewClient, writer and Destroy
--   Server           rtspproxy/server.go
--   Metrics          rtspproxy/metrics.go
--   Program          cmd/main.go
--   Config           rtspproxy/config.go
--   Text, Prelude    what the code takes from Go's strings and strconv, and shared lemmas
--   Tests            the theorems at concrete inputs
--
-- Conventions. A Go string is a list of bytes. A map is an association list, and the order of the
-- list is the order in which Go iterates. An int is an integer whose sums wrap at 64 bits where
-- they can overflow. A duration is a number of nanoseconds, and the time is an argument. Shared
-- state is passed explicitly: a step of one goroutine is a function on the state, and what others
-- do while it waits is an argument. Pointers are numbers where identity matters.
--
-- Fuel. The header loop takes one round for each byte of its text and one more, and the inner loop
-- of readLoop one turn for each byte in its buffer and one more: each round that goes on consumes
-- at least one byte. The loop of ParseAuthorizationHeader has a round for each byte of its text.
--
-- Not modelled: the buffer pools, which change no bytes; logger.go, the metrics that are only logged,
-- which are the bit rate and the average queue of stream.go, and metricsLoop of stream_manager.go; the
-- parsing of flags, sockets and goroutines. The URLs, MD5, the random cnonce, the HTTP server of the
-- metrics and the network are parameters of what uses them.
pub mod Prelude
pub mod Text
pub mod Message
pub mod HeaderBlock
pub mod Response
pub mod Transport
pub mod Session
pub mod ClientSession
pub mod ClientWriter
pub mod Digest
pub mod Config
pub mod Url
pub mod Request
pub mod Remote
pub mod Stream
pub mod Framing
pub mod Fanout
pub mod ConnectLoop
pub mod Tracks
pub mod Lifecycle
pub mod Handlers
pub mod Upstream
pub mod Exchange
pub mod Sequence
pub mod Manager
pub mod Server
pub mod Metrics
pub mod Program
pub mod Client
pub mod Setup
pub mod ClientLoop
pub mod Ticker
pub mod ReadLoop
pub mod Tests
