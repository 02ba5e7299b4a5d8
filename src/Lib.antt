-- ===== src/Lib.antt =====
-- pcsuite-rs is a desktop companion of an Android phone: it speaks the phone suite's protocols over
-- the local network, serves and fetches files, mirrors the screen and shares the clipboard. This
-- library models the protocol core and the file planes.
--
-- Parts and files. A module's top file says which source it is about.
--   Ruying      crates/pcsuite-proto/src/ruying.rs: the frames of the clipboard socket 8904. `build`,
--               `parse` (its second half is `parse_inner`), `RuyingFrame`, `Parsed`.
--   Vdfs        crates/pcsuite-proto/src/vdfs.rs: the wire format of the file plane. Request and
--               response frames in Vdfs, plaintexts and `parse_request` in Vdfs/Request, `parse_stat` in
--               Vdfs/Stat, directory listings in Vdfs/Dirent.
--   Crypto      crates/pcsuite-crypto/src/lib.rs: `make_sign`, `decrypt_sign` and `hmac_sha256` in
--               Crypto/Sign; `gcm_encrypt`, `gcm_decrypt`, `gcm12_seal` and `gcm12_open_noauth` in
--               Crypto/Gcm. The ciphers, SHA-256 and hex are other crates': the record `Primitives`, with
--               what they document in `Laws`. Crypto/Toy meets these laws and is used in tests.
--   VdfsPlane   crates/pcsuite-core/src/vdfs.rs: the server (`serve_conn` and what it calls) in
--               VdfsPlane/Server, the client (`fetch`, `stat`, `list_dir`, the two receive loops) in
--               VdfsPlane/Client, one against the other in VdfsPlane/Loopback. Both use Vdfs and Crypto.
--   Ws          crates/pcsuite-net/src/ws.rs: WebSocket frames and the upgrade response.
--   Http        crates/pcsuite-net/src/https.rs: request text, `parse_response`, `dechunk`; the streaming
--               download in Http/Streaming.
--   Mdfs        crates/pcsuite-core/src/mdfs.rs: listing kinds, `query_escape`, `fnv1a`; replies on the
--               control socket, `ChunkedWriter` and `ChunkedReader` in Mdfs/Transfer; tar archives in
--               memory in Mdfs/Tar, `extract_tar_to_dir` in Mdfs/Tar/Extract, `unique_path` in Mdfs/Tar/Free,
--               where an archive is extracted to in Mdfs/Tar/Plain and Mdfs/Tar/Inside.
--   Frames      crates/pcsuite-proto/src/payload1.rs in Frames/Payload and crates/pcsuite-proto/src/screen.rs
--               in Frames/Screen.
--   Json        the values of the crate serde_json: `Value`, its parser and printer as the record `Serde` with
--               what they document in `Laws`. Json/Toy meets these laws and is used in tests.
--   Clip        crates/pcsuite-proto/src/clip.rs: the messages of the clipboard.
--   Clipboard   crates/pcsuite-core/src/clipboard.rs: `Shared`, `mark`, `build_frame`; `on_frame` in
--               Clipboard/Frames, `handle_8904` and the accept loop in Clipboard/Relay, `watcher` in
--               Clipboard/Watch, `clip_handshake` in Clipboard/Handshake; both sides together in
--               Clipboard/Delivery. Uses Ruying, Crypto and Clip.
--   FileTrans   crates/pcsuite-proto/src/filetrans.rs, and crates/pcsuite-core/src/filetrans.rs in
--               FileTrans/Receiver.
--   Session     crates/pcsuite-core/src/session.rs: `control_task` as a function on the rounds of its loop.
--   Share       crates/pcsuite-core/src/share.rs: the texts of the receiver on port 10191; `handle_conn` and
--               `read_first_frame` in Share/Connect, `accept_loop` with the tasks of its connections in
--               Share/Taps, `pull_batch` in Share/Pull, `http_download` in Share/Download, `extract_zip` and
--               `dedup_path` in Share/Files. Uses Frames/Payload, Json and FileTrans.
--   Pair        crates/pcsuite-core/src/pair.rs: the QR code's address, `pct` and `pct_decode`, `parse_query`, and
--               the listener's loop.
--   Config      crates/pcsuite-core/src/config.rs: `Mode`, `load`, the settings and `default_identity`.
--   Notices     crates/pcsuite-proto/src/notify.rs and crates/pcsuite-proto/src/verify.rs, and the features in
--               crates/pcsuite-core/src/notify.rs and crates/pcsuite-core/src/verify.rs.
--   Device      crates/pcsuite-core/src/device.rs: `parse_base_info` and the body of `announce_connect_info`.
--   Base        shared notation and lemmas: lists, bytes, big-endian integers, searching, text functions
--               of the standard library, sockets as lists of reads, and the result types.
--
-- How code becomes definitions. A byte is a number below 256, a byte string or a Rust string a list of
-- them (a string is its UTF-8). Integers are natural numbers; `to_be_bytes` of a w-bit integer and casts
-- keep their remainder by 2^w. Functions that return Option or Result do so here (`Result` keeps the
-- literal part of a message); indexing that can panic returns an `Outcome`. A socket that is read is the
-- list of what its reads return (Base/Streams); one that is written is the bytes sent. A handler of
-- messages takes a state and gives a state and what it does, as a list of effects or as the messages sent;
-- what a timer, the clock or the system's clipboard gave is an argument or an event. Random bytes,
-- the file system, the network and other crates' functions are arguments.
--
-- Loops and fuel. Loops over a list or a list of reads are structural. The others take fuel, and the
-- caller gives enough: `dirent_loop`, `dechunk_loop`, `trim_start_loop`, `words_loop` and the two tar
-- loops use at least a byte a round and get a round for each byte (the tar loops one more, for the round
-- that stops); `collapse_loop` shortens the path in each round; `settle` gets a round for each buffered
-- byte and a last one; the `extract_loop` of Mdfs/Tar takes a block in each round; the chunk loop of
-- Share/Download gets a round for each byte and one more; `drain_loop` drains a frame in each round and
-- gets a round for each byte and a last one; `first_free` gets a number for each existing path and one
-- more; `try_numbers` gets the 999 numbers that the code tries; `to_decimal` and `to_hex` get the digits
-- of a 64-bit number.
--
-- Not modelled: TLS and TCP set-up, the command line and the Swift bindings, timers and task scheduling,
-- logging, the JSON listings of the file manager, discovery, the cloud, and the drivers that upload and
-- download whole directories.
pub mod Base
pub mod Ruying
pub mod Vdfs
pub mod Crypto
pub mod VdfsPlane
pub mod Ws
pub mod Http
pub mod Mdfs
pub mod Frames
pub mod Json
pub mod Clip
pub mod Clipboard
pub mod FileTrans
pub mod Session
pub mod Share
pub mod Pair
pub mod Config
pub mod Notices
pub mod Device
