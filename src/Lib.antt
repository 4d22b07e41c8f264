-- ===== src/Lib.antt =====
-- Verification of moonshine, a game streaming host: how a client pairs, asks for its streams and
-- gets a session, what the host sends over the video, audio and control streams, and how it reads what
-- the client sends.
--
-- A client pairs in five steps that share a PIN (`ClientManager`), and the certificates of the
-- clients that proved it are saved. The web server routes a request to its handler, and lets only a
-- client with a saved certificate launch, resume or cancel a session. Over RTSP the client announces
-- the video and audio streams that it wants; the session manager takes them and runs the one session
-- of the host through its commands (initialize, launch, start, stop), and a watchdog resets it when
-- the session was dropped or a part of it stopped. The compositor picks the window with the focus.
--
-- An encoded frame gets its HDR metadata inserted, is cut into shards by `Packetizer::packetize`,
-- with parity shards and, on demand, encryption, and the batch of shards is handed to the GSO
-- socket. Audio packets go out in groups, four with data and two with parity. The control stream
-- runs a loop over an enet host: it reads control messages, which hold input events, and sends
-- feedback for gamepads, the HDR state and the termination, each sealed under a sequence number of
-- its own.
--
--   Common                          lists, tests, words, bits, text and results that the parts share
--   Clients                         moonshine-core/src/clients.rs and state.rs: Ecb (the block
--                                   cipher over a message), Events (what reaches the manager),
--                                   Persist (what is saved), Honest (the conversation with a client
--                                   that knows the PIN)
--   Webserver/Pairing               moonshine-core/src/webserver/pairing.rs and `submit_pin` of
--                                   webserver/mod.rs: Passes (requests as events of the manager),
--                                   Trust (what pairs a certificate)
--   Webserver/Query                 moonshine-core/src/webserver/mod.rs: parameters and answers
--   Webserver/Launch                the same file: `launch`, `resume`, `cancel`; Mode (the mode that
--                                   is asked for), Phases (from a launch to the stream)
--   Webserver/Info                  the same file: what the other handlers answer; Escape (XML)
--   Webserver/Serve                 the same file: `serve`; Guard (one request), History (many)
--   Rtsp                            moonshine-core/src/rtsp.rs: Announce (the two contexts),
--                                   Requests (SETUP, ANNOUNCE, PLAY and the connection)
--   Session/Manager                 moonshine-core/src/session/manager.rs: Commands, Refine (the
--                                   phases, the watchdog's turns among the commands)
--   Video/Context                   moonshine-core/src/session/stream/video/mod.rs: the formats
--   Video/HdrSei                    moonshine-core/src/session/stream/video/pipeline/hdr_sei.rs:
--                                   Escape, Leb128, Sei (payloads), Nals, Obus (scanning a frame),
--                                   Units, Inject (inserting)
--   Audio/Config                    moonshine-core/src/session/stream/audio: channels and Opus
--   Audio/Encoder                   moonshine-core/src/session/stream/audio/encoder.rs and `encrypt_cbc`
--                                   of crypto.rs: Packets (bytes), Shards (buffers), Parity,
--                                   Group, Rounds, Numbers (as a client reads them), Stream (a run)
--   Video/ShardBatch                moonshine-core/src/session/stream/video/shard_batch.rs: Slots (one
--                                   shard at a time), Slices (the view that fec_rs gets)
--   Video/GsoSocket                 moonshine-core/src/session/stream/video/gso_socket.rs
--   Video/Packetizer                moonshine-core/src/session/stream/video/packetizer.rs: Layout
--                                   (shard and block counts, header words), Shard (the bytes of one
--                                   shard), State (encoder cache and cipher), Block (the loops over
--                                   the shards of a block; Write, Parity, Seal, Encrypt), Frame
--                                   (`packetize`; Receive is a receiver that puts a frame together,
--                                   Carried to Held are the lemmas on one block, Sent the loop
--                                   over them, Whole a frame and a stream of frames)
--   Control/Message, Encrypted      moonshine-core/src/session/stream/control/mod.rs: the messages
--   Control/Hdr                     the same file, and compositor/frame.rs for the HDR metadata
--   Control/Loop                    the same file: `run_control_loop`, a round at a time
--   Control/Feedback                moonshine-core/src/session/stream/control/feedback.rs
--   Control/Input                   moonshine-core/src/session/stream/control/input: Keyboard, Mouse,
--                                   Touch, Gamepad, Event and Slot (mod.rs), Remap (hold-to-home)
--   Compositor/InputSerials         moonshine-core/src/session/compositor/input_serials.rs
--   Compositor/Focus                moonshine-core/src/session/compositor/focus.rs: the windows and
--                                   their priority; Select and Apply (the steps in handlers.rs and
--                                   `clear_dropdowns` of state.rs), Reevaluate (`reevaluate_focus`;
--                                   Priority, Promote, Settled, Eligible)
--   Tests                           the theorems at concrete inputs
--
-- A definition has the name of the function that it models, in snake case; where several types have
-- a `from_bytes`, the type comes first (`touch_from_bytes`), and a handler of `/pair` named like
-- the manager's function starts with `pair`. A machine word is a native number with its wrap-around
-- written out, as release builds compute it; a byte buffer is a list of numbers, and a write into
-- it is `copy_at`. `Result` tells errors (`Err(())`) from panics. An `f32` is its bit pattern. An
-- instant is a number of nanoseconds.
--
-- Parameters: the crates fec_rs and aes_gcm (record `Crates` of the packetizer, with the hypothesis
-- `MakesCodes`: fec_rs makes an encoder of up to 255 shards, which leaves the data shards as they are
-- and every shard its length; that of the audio encoder has fec_rs and cbc, and what Opus makes of a
-- frame is an argument), `encrypt` and
-- `decrypt` of crypto.rs in the control stream, aes, sha2, x509_parser and aws_lc_rs in the pairing
-- (record `Crypto`; random bytes are arguments), hex and the validation of UTF-8 (record `Codecs`).
-- What rtsp_types and sdp_types read, the queries and forms as maps, what the socket answers, what
-- enet, the clock and the channels give in a round, whether the state file is saved, and whether a
-- session could be created, launched or started are arguments, as are what the X server answers
-- (record `XServer`), the hash behind an application's id (`id_of`), the PIN page and the box art.
--
-- Fuel: `chunks` takes one round for each byte, and every chunk has at least one; the loop over
-- blocks takes `nr_blocks` rounds as the source's range does; the scans for a slice or a frame take
-- one round for each byte, and each round moves on by one at least; `leb128_encode` takes ten rounds,
-- enough for 64 bits in groups of seven; the walk to a transient child takes ten rounds, as the
-- source's range does.
--
-- Not modelled: poisoned locks, the check for a shutdown between rounds of the control loop,
-- whether a popup keeps the keyboard from a window that it is asked for, the encoder pipeline,
-- the PulseAudio server, the compositor beyond the serials and the focus, the text that DESCRIBE
-- answers, the listeners and the TLS of the web server and how it scales box art, the application
-- scanners, the health checks, sockets, devices and processes, and the creation of gamepads.
pub mod Common
pub mod Video
pub mod Control
pub mod Compositor
pub mod Audio
pub mod Session
pub mod Clients
pub mod Rtsp
pub mod Webserver
pub mod Tests
