-- ===== src/Lib.antt =====
-- Verification of the kernel modules, the delta core and the programs of Ryzen.Build.
--
-- The repository is a set of small programs around a cluster simulated in the kernel. Modelled are:
--
-- * dawnhex_kmod.c, the DawnHex module (with dawnhex_uapi.h and dawnhex_duo_uapi.h), in Dawnhex.
--   One structure `g_dawnhex` holds 64 nodes whose `links_mask` has a bit for each other node, a ring
--   of 128 event texts, and a table of at most 128 pairs of nodes, each with a ladder of shares in
--   parts per million. Text commands, ioctls, attributes, a delayed work and two exported functions
--   change it, all under one lock.
--     Dawnhex/Types     the structures; `State` is `struct dawnhex_state` with the field `duo`
--                       that the code uses and its declaration lacks
--     Dawnhex/Events    `dh_emit_event_locked` and the ring; an event is kept as the arguments of
--                       its format, and `render`, a parameter, makes the text of at most 159 bytes
--     Dawnhex/Nodes     lookup, count, add, delete, link and unlink
--     Dawnhex/Fixed     clamp, fixed-point products, mips and the Fibonacci ladder
--     Dawnhex/Simplex   `dh_duo_base_retained_ppm_locked`, `dh_duo_recompute_simplex_locked`
--     Dawnhex/Duo       the table of pairs, pulses and hooks; a call of a hook is an entry of a trace
--     Dawnhex/Tick      `dh_tick_once_locked` and `dh_tick_workfn`
--     Dawnhex/Scan      what the code uses of `sscanf` and `strncmp`
--     Dawnhex/Command   `dh_handle_command_locked` and `dh_write`
--     Dawnhex/Device    `dh_read`, `dh_poll`, `dh_ioctl`, the stores of the attributes, and the init
--     Dawnhex/Show      the attributes that show the state, each in a page of 4096 bytes
--     Dawnhex/Sound     the invariant of the whole state, kept by each entry point (Sound/Entry) and by
--                       every sequence of calls (Sound/Run)
-- * simplex_adalter_kmod.c (with simplex_adalter_uapi.h), in Adalter: a configuration and the base of
--   a page, from which a report is recomputed on a work queue after each change.
--     Adalter/Fixed     its own fixed-point helpers and `sa_fill_fib`
--     Adalter/Types     the structures; a key is the array of its 128 bytes
--     Adalter/Report    `sa_recompute_locked`, cut at its loops into functions
--     Adalter/Device    `simplex_ioctl`, `last_key_store`, `simplex_init`; Device/Run has whole runs
-- * deltaffi.c, the C functions behind delta_link_ffi.lua: hash, reversals, XOR deltas and block
--   hashes in Delta, run-length packing in Delta/Rle.
-- * infinity.c, mainly from line 297 on: a proxy that relays bytes between clients and one upstream, in
--   Infinity. One loop takes events of epoll and changes the sessions, all in one thread.
--     Infinity/Buffer   the relay buffers, `relay_read_into_buffer` and `relay_write_from_buffer`
--     Infinity/Session  `struct Session` and `handle_side_io`, cut at its early returns into stages;
--                       what went over the sockets is kept beside it (`Wire`)
--     Infinity/Proxy    the globals, `session_create` and `session_destroy`, `handle_listener_accept`,
--                       `enforce_idle_timeouts`, and the events of `main`; a pointer to a session is
--                       its id, and Proxy/Steps has the steps of the loop (Steps/Batch the
--                       events of one `epoll_wait`)
--     Infinity/Config   `parse_host_port`, `config_init` and `parse_args` of `ProxyConfig`
--     Infinity/Sockets  `set_nonblocking`, `resolve_and_bind_listener`, `connect_nonblocking_upstream`
--     Infinity/Envelope `append_blockchain_envelope` and `append_jsonrpc_stub` of the first half of the
--                       file, a variant of caustic.c; its command line is in Infinity/ReportConfig
--     Infinity/Artifact the bytes that `session_emit_artifact` writes
-- * caustic.c, which scores a file and writes a report, in Caustic.
--     Caustic/Config    `config_default` and `parse_args`
--     Caustic/Scores    `compute_magenta_scores` and its helpers
--     Caustic/StrBuf    `sb_init` and `sb_appendf`; the array is a function of its index, and what
--                       stands in fresh memory is arbitrary
--     Caustic/Escape    `json_escape_append`
--     Caustic/System    the metrics of the GPU, the meta data and the attributes of a file, as the
--                       system answers (`System`, `Xattrs`)
--     Caustic/Payload   `build_payload_json` and `append_xattrs_json`; Payload/Value says what a
--                       report stands for
-- * dawnhex_ctl.c, the command-line tool of the DawnHex module, in Ctl: a run takes the arguments and
--   the state of the module, and ends with the printed text and the exit status.
-- * runway_hook.c, which asks a service for a video and waits for it, in Runway.
--     Runway/Json       `json_escape` and `extract_json_string_field`
--     Runway/Submit     `submit_task`, `write_cb` and `main`
--     Runway/Task       `parse_args`, `extract_first_output_url` and `poll_task`, on the answers that
--                       the service gives
-- * Json describes JSON texts, which caustic.c, infinity.c and runway_hook.c write, without them.
--
-- How the C code is read. An integer is a natural number with its wrap-around written out (`u32`,
-- `u64`, `sub32` of Base/Word); the `time_t` of Caustic, which may be negative, is a `ℤ` of
-- Base/Int. A function that changes `g_dawnhex` takes the state and gives it back beside its
-- result; a section under the lock is one step, so a program of several tasks is a sequence of
-- such steps (`Call`, `run`). A pointer to a node or pair is its index. Success or failure of the
-- copies from and to user space, of allocation and of registration are arguments. A loop is a
-- recursion on the rounds that are left, which the C bounds give (64 nodes, 22 levels, 12 nodes of
-- a level, 128 pairs), or on the list of what is left; the loops over the names of attributes in
-- Caustic have as much fuel as bytes; `hash_loop` of Delta has fuel, one more than the length of
-- the data, `pack_loop` and `unpack_loop` have that length, and give `none` without fuel; each
-- round passes at least one byte, so it suffices. The loop of `sb_appendf` has two rounds: the
-- second finds room.
--
-- Not modelled: the show attributes of simplex_adalter_kmod.c (they format text and change
-- nothing), the exit functions, the lock itself and the sleep of `dh_read`, which is the result
-- `blocked`; since the model takes the wake-up and the read as one step, a second reader in
-- between, for whom the code returns 0, is left out, and so is a signal. Of infinity.c the printing
-- and the shell command of the sidecar, of caustic.c the transfer and the wait between two rounds,
-- of runway_hook.c the transfer are left out; what the system answers (accept, recv, send, epoll,
-- realloc, fread, stat, getxattr, the clock) is an argument, and what is relied on is a named
-- hypothesis (`IsFresh`, `IsDelivered`, `AllApart`, `IsMemory`,
-- `IsSystem`). The other programs in user space
-- and the scripts are outside this library.
pub mod Adalter
pub mod Base
pub mod Caustic
pub mod Ctl
pub mod Dawnhex
pub mod Delta
pub mod Infinity
pub mod Json
pub mod Runway
