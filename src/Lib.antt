-- ===== src/Lib.antt =====
-- The host side of MSX-AI: the framed wire protocol and its session, the file-transfer layer, and
-- the readers of programs, CPU contexts and screens.
--
-- The program talks to a resident agent on an MSX over a byte stream. server/msx_protocol.py makes
-- frames of a header, a payload and a CRC, and recovers them from the stream;
-- server/msx_transfer.py makes the payloads of the transfer commands, reads their replies, and
-- prepares what is sent: PackBits for binary files, canonical text for BASIC listings.
-- server/msx_v3.py holds the session that sends a request, retries it, and sorts what arrives.
-- server/msx_cpu.py reads the CPU context of the agent, and server/msx_application.py reads
-- program images and loads them. server/msx_screenshot.py draws the screen from a capture of the
-- video memory. Above them stand the hardware client and the MCP server, which are not modelled.
--
-- Files:
-- - Base: lists, Boolean tests and bytes over the native numbers, bit operations, and the result
--   of code that may raise (`Result`, with `raise_if` for a guarded `raise`).
-- - Protocol.Frame: `Frame` and its checks, `_wire_int`, the exceptions as constructors.
-- - Protocol.Crc: `crc16_ccitt`, bit by bit; Crc.Detect: what it detects.
-- - Protocol.Codec: `encode_frame`, `encode_many`, `_decode_header`, `decode_frame`; its children
--   hold the two round trips and the one-byte changes.
-- - Protocol.Parser: `FrameParser` and `feed`. Parser.Stream is an independent description of how
--   a stream splits into frames and garbage, and Round and Feed refine the loop to it; Fragments,
--   Clean, Partial, Sound, Noise and Total hold the consequences.
-- - Protocol.Finish: `_find_valid_frame` and `finish`.
-- - Protocol.Exchange: `SequenceCounter` and `validate_response`.
-- - Transfer.Types: the enumerations and field checks; Transfer.Descriptor: `TransferDescriptor`;
--   Transfer.Open: `encode_open` and `decode_open`; Transfer.Requests and Transfer.Replies: the
--   other encoders and parsers.
-- - Transfer.PackBits: `_deterministic_packbits`, with the format and its decoder in
--   PackBits.Format.
-- - Transfer.Basic: `_normalize_msx_basic_stream`.
-- - Transfer.Digest: `crc32_stream`, `crc32_file_prefix`, `looks_already_compressed`;
--   Transfer.Payload: the choice of `prepare_put_payload`, which uses them and Transfer.PackBits.
-- - Transfer.Hex: hexadecimal text; Transfer.Journal: `TransferJournal` over a list of files, each
--   with what `json.loads` makes of its text and the length of it: `save`, `load`, `remove`, and
--   `find_matching` in Journal.Find, with its children Match and Scan; Journal.Documents: the
--   document of a file; Journal.Reading and Journal.SaveLoad are about them. Documents of earlier
--   versions are not modelled.
-- - Session: the fields of `V3Session`, its constructor and the methods that send nothing;
--   Session.Wire: the stream calls, the wait for a response and `_route_frames`; Session.Request:
--   `request_frame` with its loop over the attempts. Invariant and its children hold what every
--   call keeps; Settles, Ends, Yields, Answers, Constructed, Reach, Silence, Arrival and Delivery
--   what follows for requests and sessions.
-- - Cpu: `parse_agent_cpu_context` and `decode_z80_flags`; Cpu.Context has the layout of a context
--   and Cpu.RoundTrip the contexts that an agent may send.
-- - Application: the image parsers, `detect_format` for the detection inside `parse_application`,
--   and `_entry_with_override`; Application.Loader: `load_application` over a `Backend`. Parsed
--   and Bload are about images, Steps, Placed, Verified and Total about loads.
-- - Screen: `decode_palette`, `_rgb332`, `_decode_yjk_group`, `_ranges` and `_capture_vram`;
--   Colours, Ranges and Capture are about them.
-- - Screen.Tests, Protocol.Tests, Transfer.Tests, Session.Tests, Cpu.Tests, Application.Tests:
--   runs on concrete input.
--
-- Representation: bytes are numbers with `IsByte` as a hypothesis where it matters; Python's
-- integers that a caller passes are `ℤ`; a text is the list of its code points. An exception
-- carries the values of its constructor, or a name in place of its message. Arguments of a wrong
-- type are not modelled.
--
-- Loops: `feed` and `finish` run on fuel, one more than there are bytes in the buffer, which is
-- enough, since each round that goes on removes a byte. The loop of `flush_literals` runs on the
-- length of its buffer. All other loops are structural; the wait for a response takes one entry of
-- the script of the stream a round.
--
-- The stream and the clock of a session are a script: the list of what its timed calls will do.
-- Where the script ends, the deadline has passed. A lock makes a method one step, so the calls of
-- all threads form one sequence.
--
-- Parameters: `zlib.crc32` in Transfer.PackBits, Digest and Payload; the length of a journal's
-- JSON text; the backend of a load; the reader of a capture. Not modelled: JSON manifests, the
-- emulator's CPU state, the renderers of screens, files, temporary files, progress and
-- cancellation callbacks, threads, sockets and serial ports, and the emulator.
pub mod Base
pub mod Protocol
pub mod Transfer
pub mod Session
pub mod Cpu
pub mod Application
pub mod Screen
