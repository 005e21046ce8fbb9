-- ===== src/Lib.antt =====
-- rustyIce: an Icecast-compatible streaming server. A source (a live client, the AutoDJ or a relay)
-- claims the slot of a mount; what it sends is cut into packets and published on the mount's bus;
-- each listener subscribes to the bus, gets a burst of history and then the live packets, with
-- metadata frames between the audio if it asked for them. The admin interface signs operators in.
--
-- Which file models which part (paths from the repository's root):
--   Prelude: Boolean tests, lists over native numbers, words of bits, and indexing that may panic.
--   Core/Types, Core/Mount: crates/rustyice-core/src/types.rs and mount.rs.
--   Core/Mount/Slot: the slot of a mount. `Step` has a constructor for each atomic access that
--     `claim_slot` and `release_slot` (crates/rustyice-autodj/src/player.rs and
--     crates/rustyice-server/src/relay/mod.rs), `handle_source_connection` and the drop of
--     `SourceDisconnectGuard` (crates/rustyice-server/src/source_protocol.rs) make; `Reachable`
--     interleaves the steps of any number of tasks.
--   Codec/Mp3: crates/rustyice-codec/src/mp3.rs, `mp3_frame_size`, `probe`, and in Codec/Mp3/Scan
--     `scan_bitrate_bps` and `detect_xing_frame_end`.
--   Codec/Vorbis, Codec/OggHeaderCapture: crates/rustyice-codec/src/vorbis.rs, `ogg_page_size`,
--     `probe`, `scan_nominal_bitrate_bps`, and `OggHeaderCapture` with its `push`.
--   Server/Bus: crates/rustyice-server/src/bus.rs, `publish` and `subscribe`. The channel of tokio is
--     the interface `Broadcast`.
--   Server/Chunked: crates/rustyice-server/src/chunked.rs. `poll_read` and `poll_fill_line` work on a
--     list of arrivals, which is what the polls of the inner reader meet.
--   Server/Relay: crates/rustyice-server/src/relay/backoff.rs, and the loop `RelayTask::run` of mod.rs in
--     the same folder over a list of what each of its iterations meets.
--   Ingest/Prefix, Ingest/Reader: crates/rustyice-ingest/src/icecast.rs, `strip_mp3_prefix` and
--     `drain_reader`; the reads that they make are a list of outcomes.
--   Server/SourceHeaders, Server/SourceProtocol: crates/rustyice-server/src/source_headers.rs and
--     source_protocol.rs. `admit_source` is `handle_source_connection` up to its answer, `drop_guard`
--     the drop of `SourceDisconnectGuard`; the looks of `preempt_non_live_if_present` are a list.
--   Ingest/Run: `run` of crates/rustyice-ingest/src/icecast.rs on the list of what its `select!` takes;
--     the transcoder is the interface `TranscodePipeline`.
--   Output/HttpPassthrough: crates/rustyice-output/src/http_passthrough.rs, `run`, `write_with_icy`
--     and `build_icy_frame`.
--   Core/Config, Core/Identity: crates/rustyice-core/src/config.rs, the configuration and
--     `validate_paths`, and `effective_identity` of mount.rs in the same crate.
--   Auth: crates/rustyice-auth/src/toml_bcrypt.rs, `TomlBcryptAuth`.
--   Server/ConfigReload: crates/rustyice-server/src/config_reload.rs, `apply_config` and
--     `do_reload_from_disk`. The code writes its diff out for AutoDJs and for relays; Diff has it once,
--     for a `TaskKind` that says in what they differ. A task is known by the number of its token.
--   Server/StreamRouter: crates/rustyice-server/src/stream_router.rs, `listener_handler` as `admit`,
--     `accept` and `serve`.
--   Admin/Sessions, Admin/Listeners: `SessionStore` and `ListenerMap` of
--     crates/rustyice-admin/src/state.rs.
--   Core/Toml, Core/Config/Read: what the two crates use of the TOML libraries, tables as the interface
--     `TomlEdit`, and what the `serde` attributes of config.rs in crates/rustyice-core read from one.
--   Admin/ConfigWrite, Admin/AtomicWrite: crates/rustyice-admin/src/config_write.rs. The validators'
--     loops are written once, for a `Section` that says what they check.
--   Admin/ConfigApi: api/config.rs of the same crate: Candidate from a body to a configuration, Persist
--     the file and the running configuration, Persist/Handlers the routes of router.rs. The admin
--     interface applies a configuration by `apply_config`; faults of the disk come with a request.
--   Admin/Login: api/auth.rs of the same crate; roles are those of the configuration.
-- The modules named Tests run the definitions on small inputs.
--
-- Bytes and counters are natural numbers. Subtraction stops at 0 only where the source saturates or
-- where its operands cannot fall below 0; indexing is in `Checked`, whose `panic` is a panic. Where a bus
-- is made for a new mount the models panic on a `ring_size` that tokio's channel is documented to refuse
-- (`has_capacity`), in the middle of a reload too, and `pause_after` does on a rate of 0. Lengths
-- and byte counts are not wrapped at 2^64. Loops without a structure to follow take fuel: the loop
-- of `OggHeaderCapture.push` a round for each byte in its buffers, the scans of the codecs a round for
-- each byte of the input, `write_with_icy` one round more than the packet has bytes, since each takes
-- at least one, and `poll_read` two rounds for each byte not yet read and two more.
--
-- Not modelled: sockets, HTTP parsing and the text of most responses, the TOML parser, audio
-- decoding and encoding, which call libraries, and so far the AutoDJ's playlist and loop, and the
-- admin interface's listings and actions. Two saves at once are not interleaved. Slow receivers of
-- the broadcast channel, which skip packets, failed writes to a listener, and the parking of a
-- preempted owner are left out as well.
mod Prelude
pub mod Core
pub mod Codec
pub mod Auth
pub mod Ingest
pub mod Server
pub mod Output
pub mod Admin
