-- ===== src/Lib.antt =====
-- Cubby Clipboard, the clipboard history for Windows 11: models of the parts of its Rust program that
-- decide what is captured, kept, forgotten, recognized and let through.
--
-- How the parts interact. The clipboard listener of src-tauri/src/clipboard.rs turns each change of
-- the clipboard into an event and sends it through a channel, src-tauri/src/clipboard/snapshot_channel.rs,
-- to a worker that stores it, `process_clipboard_snapshot`, unless one of its gates refuses the copy; each
-- stored copy runs the retention of src-tauri/src/commands.rs. Behind the channel stands a bounded queue,
-- src-tauri/src/clipboard/snapshot_queue.rs, which evicts old captures under a flood. A capture may
-- carry a self-paste binding, src-tauri/src/clipboard/ignore_hash.rs: Cubby's own paste comes back as
-- a capture and must be ignored, also if the flood evicts it. A clear of the clipboard forgets a
-- password that was captured just before, `process_clipboard_clear` of src-tauri/src/clipboard.rs over
-- src-tauri/src/clipboard/forget_on_clear.rs. Stored images wait for text recognition in
-- src-tauri/src/ocr_queue.rs. Two gates face outward: src-tauri/src/path_grant.rs lets the Settings
-- page export and import only what the file picker produced, and src-tauri/src/win_v_activation.rs
-- lets only the program's own helper open the window. src-tauri/src/secrets.rs tells which text looks
-- like a secret, for the capture and for the clear. src-tauri/src/search_index.rs answers the search
-- of the history from memory, since the stored texts are encrypted. Settings, originals of images and
-- backups are replaced as whole files, with the fallback of src-tauri/src/settings_load.rs. Rich text
-- goes back to the clipboard through src-tauri/src/cf_html.rs, which also reads what others put there.
--
-- Prelude: the names that the modules share, Boolean tests and list lemmas.
-- SnapshotQueue: `enqueue`, `dequeue`, `coalesce_adjacent_replacements` and
--   `counted_non_oversize_bytes` of snapshot_queue.rs. A `VecDeque` is a list, front first; `usize` has
--   64 bits and its saturating and wrapping sums are written out. Both eviction loops run on fuel,
--   the length of the queue and one more, which is enough: each round evicts one item, or skips one,
--   or ends the loop. The bounds of the queue rest on its children Totals, Coalescing, Eviction, Back,
--   Budget and Oversize, and what survives a flood rests on Removal.
-- SnapshotChannel: `channel`, `send`, `recv` and the two drops of snapshot_channel.rs, each one step
--   under the lock. `recv` is one round of its loop.
-- ListenerEvent: the events of clipboard.rs, their sizes, their hash and the handler of evicted ones.
--   SHA-256 is a parameter with the law of a streaming digest.
-- IgnoreHash: ignore_hash.rs. Times are nanoseconds.
-- ForgetOnClear: forget_on_clear.rs and, of clipboard.rs, `process_clipboard_clear` with its closure
--   `requeue` and `schedule_forget_retry`. What SQLite, the settings, the clock and other tasks do
--   during an attempt is an `Environment`. A failed lookup of the image path is left out: it has no
--   effect but on which image file is removed.
-- PathGrant: path_grant.rs. The bodies behind the grants are parameters.
-- WinVActivation: win_v_activation.rs, without the random source, the search of the token in the
--   arguments and the classification of socket errors.
-- OcrQueue: the operations of ocr_queue.rs on the table of clips. The worker's sleeping, the loading
--   of the image, the recognition and the classification of its error text are left out. A run of the
--   worker is a list of actions, newest first, in OcrQueue/Attempts and OcrQueue/Worker.
-- Secrets: secrets.rs, on lists of code points. The tests of single tokens are in Secrets/Shapes and
--   the string functions in Secrets/Text. The seed list of password managers is left out.
-- SearchIndex: search_index.rs. Texts, Slots and Query have the functions on texts, on sorted slots and
--   of a query, and Service the public methods and the rows of a rebuild. A slot has 32 bits, and the
--   theorems that insert need fewer than 2^32 slots. The invariant of the index is in Invariant; it is
--   kept by insertion (Insertion), removal (Removal) and compaction (Remap, Compaction), which Updates
--   and Changes put together; Matching relates it to the query over Candidates and Substrings. Case
--   folding, decryption and the decoding of bytes are parameters. Rebuild is about one round of
--   `ensure_ready` and Publishing about changes during it; the loop around the round and
--   `source_app_counts` are left out.
-- FileReplace: settings_load.rs and image_stage.rs, over a disk of two paths, a file and the temporary
--   that takes its place. The calls of the operating system are an `Os`, with what they promise in
--   `IsOs`: also that a replace may fail with the file gone. FileReplace/Settings has `save` and
--   `persist_after_load` of src-tauri/src/settings_manager.rs, FileReplace/Images the originals of
--   src-tauri/src/image_persist.rs and the sweep of src-tauri/src/database.rs, FileReplace/Backups the
--   export of src-tauri/src/backup.rs and the end of the rolling backup. Serialization is a parameter.
-- CfHtml: cf_html.rs. A `str` is the list of its characters; its UTF-8 bytes are a parameter, with the
--   laws of UTF-8 in CfHtml/Restores. CfHtml has the reading half and CfHtml/Assembly the writing half.
-- ClipTable: the table `clips` of database.rs as the next two read and write it, with a row's original
--   and its formats. A statement is a function on the list of rows.
-- Retention: `enforce_retention_in_pool` of src-tauri/src/commands.rs. Which of two clips of one second
--   is the newer is SQLite's, so its order is a parameter with the law of ORDER BY.
-- Capture: `process_clipboard_snapshot` of clipboard.rs, the worker behind the channel. Remote has
--   src-tauri/src/remote_clients.rs and Gates the guards before anything is stored; Relay has the
--   rewriting of a remote session's copy, Storing the statements, with the recapture of
--   src-tauri/src/image_persist.rs, and State what the worker reads and writes. `Environment` says
--   which statement fails and when the clock is read. Outcomes and Phases split a capture into its
--   ways; the clear after a capture is in Clearing and Forgotten, over ForgetOnClear.
-- History: the commands of commands.rs that delete, pin, edit, clear and bump clips, on the same state;
--   Editing has `update_clip_text_in_database`. A history is a sequence of captures and commands in
--   any order, `Reachable` in History/Steps.
-- Listing: the paging of commands.rs over a list of identifiers, `collect_readable_clips_by_id` and
--   `source_start_for_ids`. Its loop runs on fuel, the number of identifiers and one more, which is
--   enough: each round but the last moves on by the limit.
-- Tests: each theorem at concrete data.
--
-- Not modelled: folders, notes, hidden clips and the commands that only read, the database schema and its migrations, the contents of a backup
-- and of a Ditto import, encryption, the table of capture misses and paste injection, since they are
-- not reached yet; the Windows calls, the Tauri glue and the front end, since they are input and
-- output.
pub mod Prelude
pub mod SnapshotQueue
pub mod IgnoreHash
pub mod PathGrant
pub mod ForgetOnClear
pub mod WinVActivation
pub mod ListenerEvent
pub mod SnapshotChannel
pub mod OcrQueue
pub mod Secrets
pub mod SearchIndex
pub mod FileReplace
pub mod CfHtml
pub mod ClipTable
pub mod Retention
pub mod Capture
pub mod History
pub mod Listing
pub mod Tests
