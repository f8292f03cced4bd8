-- ===== src/Lib.antt =====
-- mactelnet-proxy reaches MikroTik routers by MAC-Telnet from an SSH front end, and lists them by
-- MNDP. This library models its packages src/internal/mactelnet, src/internal/mndp and
-- src/internal/sshserver and the daemon src/cmd/mactelnet-proxy. A byte is a number below 256 and a slice
-- a list of bytes; a text is the list of its runes, which are its bytes where it is ASCII.
--
-- A session (Session, for session.go and loop.go) sends and receives packets whose layout is that of
-- Wire (protocol.go), numbers their bytes and times their repetition by Seq (seq.go), puts them into
-- Ethernet frames by Frame (conn.go), and logs in with the messages of Auth (auth.go) and the
-- computations of Srp (mtwei.go). Mndp is src/internal/mndp. Ssh is src/internal/sshserver: the commands
-- and the password prompt of exec.go, the interfaces of ifaces.go, the keys of keys.go, and the server and
-- its channels of server.go; its engines open sessions and run discoveries. Cli is the daemon's command
-- line, which configures the server or does the same as an engine. Base has what they share, and Text
-- what they use of Go's strings, strconv, fmt and flag packages.
--
-- - Wire: Header.encode, decode_header and encode_ping are header.encode, decodeHeader and encodePing;
--   Control.encode_control and iterate_control are encodeControl and iterateControl, whose callback
--   has a state here. The fuel of iterate_control is the length of the payload; a round takes nine
--   bytes of it.
-- - Seq: Counters and its operations are the struct counters and its methods, modulo 2^32;
--   Schedule.build_retransmit_schedule is buildRetransmitSchedule in nanoseconds, whose second loop
--   has fuel for one round more than the budget has seconds.
-- - Frame: Build.build_frame is buildFrame, Checksum.internet_checksum internetChecksum, Sender.send
--   rawSender.Send with the kernel's answer as an argument, and Receive.read rawReceiver.Read over a
--   list of what the socket returns.
-- - Auth: Messages has the builders of the two login messages and the two digests, over hash
--   functions that are parameters.
-- - Srp: Curve has the points, scalarMult and liftX of mtwei.go, with the number as fuel for its bits;
--   Exchange has tangle, keygen and docrypto. The search of tangle has fuel for the seeds below 2^256,
--   where the source panics.
-- - Session: State has the fields that the goroutines share, Close and fail; Inbound the rounds of
--   rxLoop and the callbacks of processInboundData; Outbound waitForAck, sendDataAndWaitAck, Write,
--   Resize and a tick of keepaliveLoop; Login the handshake; Loop rxLoop over a raw socket, with fuel for one
--   round more than the socket returns things; Steps the goroutines' steps in any order.
--   What the sender answers, and what a wait receives, are arguments. The locks sendMu and dataMu are
--   not modelled: a step is what runs under one.
-- - Mndp: Parser.parse_packet is ParsePacket, with the length of the datagram as fuel for its loop;
--   Discover.discover is Discover over the events of its socket, and resolve_broadcast
--   resolveBroadcast.
-- - Ssh: Command.split_cmd is splitCmd and Engines.dispatch_exec dispatchExec; ExecMactelnet, ExecMndp and
--   IfaceTable have execMactelnet, execMndp and execIfaces as functions from the arguments to the exit
--   code and what they do to the channel and to a session; Ifaces.summarize is summarize with its readers;
--   Prompt.read_password_prompt is readPasswordPrompt over what is buffered and the later reads;
--   Files.load_authorized_keys and load_or_create_host_key are their namesakes over a file system that is
--   an interface, and Keys.key_match keyMatch; Server has New, reload, authPublicKey, Serve and handleConn;
--   Channel handleSession and handleReq; Lifecycle a serving server's goroutines in any order.
-- - Cli: Serve has main's choice of a subcommand, envOr and its relatives, and runServe; Mactelnet and Mndp
--   have runMactelnet and runMndp.
-- - Text: Flags.parse is FlagSet.Parse, with time.ParseDuration as a parameter; Numbers has the parsers of
--   strconv, where Itoa has fuel for one digit more than the number; Strings the functions of strings.
-- - Session.Open.open_session is Open; Frame.Sockets has resolveInterface, openSockets and what they call,
--   Frame.Timeout.read_timeout SetReadDeadline of the raw receiver, and Frame.MacText.parse_mac parseMAC
--   over net.ParseMAC.
--
-- Not modelled: the text of messages and logs, usage texts and JSON; sockets, files, timers, terminals and
-- the libraries of Go beyond Text, which are parameters or lists of events where the code depends on
-- them; the copying goroutines of a running session, of which only the ends are given.
pub mod Base
pub mod Text
pub mod Wire
pub mod Seq
pub mod Frame
pub mod Auth
pub mod Srp
pub mod Session
pub mod Mndp
pub mod Ssh
pub mod Cli
