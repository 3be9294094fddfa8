-- ===== src/Lib.antt =====
-- Verification of the multi-call binary of stream data applets: the libraries of `lib` and the
-- applets of `applets`, which `applets/main.c` dispatches. A pipeline of them runs
-- stream_merge | log_parse | clip_store, started by pipeline_dispatcher; each applet reads lines
-- and writes lines.
--
-- Parts and files:
-- - Prelude: what the parts share. Tests (Booleans and options), Lists (lists by position over
--   the native numbers), Int (signed numbers), Bytes (C strings and the functions of string.h),
--   Decimal (`%ld` and `strtol`), Unsigned (`strtoul`).
-- - Buffer: lib/dynamic_buffer.c. `Buffer` is `dynamic_buffer_t` with its block of memory;
--   `reserve`, `append_char`, `append_mem`, `append_str` and `reset` are the functions of those
--   names behind the prefix `dynamic_buffer_`. Grow is about the doubling loop, Laws about the
--   invariant and `reserve`, Append about what appending leaves. Steps is about sequences of
--   appends.
-- - StreamMerge: applets/stream_merge. Events is sm_events.c with Events/Json for its rendering,
--   Fsm is sm_fsm.c (`process_record`, `check_idle`, `flush_final`). Fsm/Laws has each operation
--   on all its branches; Fsm/Runs, Fsm/Clips, Fsm/Cover and Fsm/Sessions are about whole runs of
--   calls, with `emissions` for the clips that an action emits. Reader is sm_reader.c. The rest
--   is stream_merge.c: Output is `emit_clip` and `handle_action`, Drain is `drain_meta` (with
--   Drain/Cut for lines, Drain/Discard for the buffer, Drain/Feed for the reading, Drain/Lines
--   for the whole), Loop is the main loop (`turn_step` is its body, `merge` all of it with the
--   readings before and behind it), and Main is `stream_merge_main` with its options and the
--   waiting for the file. Loop/Inputs, Loop/Reached, Loop/Stands, Loop/Whole and Loop/Total lead
--   from one call to a whole run.
-- - ClipStore: applets/clip_store. Row is the row of clip_store.h with the tests of db_format.c;
--   Index is the hash index of db_query.c: `find_slot`, `put` (`row_index_put`), `grow`
--   (`row_index_grow`) and `get` (`row_index_get`). Index/Mask, Index/Probe, Index/Insert,
--   Index/Placed, Index/Rehash, Index/Grow and Index/Refine lead from the masks to the map the
--   index implements. Format is db_format.c: `parse_db_row` and `append_db_row`, with
--   Format/Inflate (the doubling buffer), Format/Reads, Format/RoundTrip and Format/Total. Load
--   is `load_latest_rows` and `load_latest_row` of db_query.c, Compact is db_compact.c with
--   `print_rows` of clip_store.c; Compact/Lines is about files of whole lines, Compact/Written
--   about what the loop of a compaction writes, Compact/Preserves about reading a compacted
--   file, Compact/Listings about `print_rows`. Main is `clip_store_main` with its options and
--   modes; Main/Store is about the map that a file of whole lines stands for, Main/Updates about
--   `--set` and `--delete`, Main/Reading about `--get`, Main/Piped about the clips on the
--   standard input, Main/Granted about when these are stored, Main/Clips about what a clip is as
--   JSON.
-- - Json: lib/jsonl_codec.c over cJSON as the parameter `Cjson`; the functions lack the prefix
--   `jsonl_`. Json/Numbers has what is used of a `double`, Json/Laws is about the getters,
--   Json/Scalars about scalars as text, Json/Strings about `jsonl_write_string`.
-- - LogParse: applets/log_parse. Filter is log_filter_expr.c, Fields is log_regex.c, Output is
--   log_output_format.c over the functions of Buffer; Output/CsvReader has a reader of CSV. The
--   rest is log_parse.c: Trim is `trim_line`, Command the command line with the checks behind
--   it, whose outcome is a `Plan`, and Main the main loop (`run_lines`) and what is printed
--   behind it. Main/Kept, Main/Answers and Main/Selected are about runs without a regular
--   expression, Main/Records, Main/Printed and Main/Report about runs with one. The functions
--   keep their names.
-- - Dispatcher: pd_pipeline.c and pd_spawn.c of applets/pipeline_dispatcher, as the actions that
--   are asked of an operating system whose answers are the parameter `Os`. Wait is about the
--   exit code, Resources about descriptors, Reaping about children. Config is pd_config.c and
--   `pipeline_dispatcher_main`; Config/Ttl is about numbers on the command line, Config/Starts
--   about when the pipeline is started. Spawn is the descriptors of a child up to its `execv`,
--   Signal is pd_signal.c.
-- - Pipeline: the three children of pd_pipeline.c on their pipes, with their options and
--   arguments: `run_pipeline` is stream_merge, log_parse and clip_store behind one another on
--   whole texts, each with what `getopt_long`, the parameter `Getopt`, makes of its argument
--   vector (`merge_argv`, `parse_argv`, `store_argv`). Emissions is about the clips that a run
--   emits, Clips about their lines, Passes about log_parse with the default filter, Reads about
--   what clip_store reads, Stored and Whole about the whole way.
-- - Paths: the names of files in lib/libpipeline.c, and the choice of the applet in
--   applets/main.c.
-- - Watch: the watches of files, the inotify events and the clock in lib/libpipeline.c.
-- - Base64: lib/base64.c. `encode` and `decode` are `base64_encode` and `base64_decode`;
--   `decode_into` has what the latter writes, also before it returns -1.
--
-- Machine integers: `size_t` and `uint64_t` are native numbers with `% 2 ^ 64` written out;
-- `long` and `int64_t` are ℤ without their overflow, which C leaves undefined. Memory: what
-- `malloc`, `calloc`, `realloc` and `strdup` grant is a parameter of the definitions that call
-- them (`Allocator`, `Memory`, `Heap`). The compressor is the parameter `Zlib`, stdio on a file
-- is `Stdio`: it gives the text of the stream, with the part that is still in its buffer, and
-- the field `fclose` of the host says what of it the file has in the end. What the operating
-- system answers during a compaction is `Calls`; theorems that rely on the compressor name what
-- they use of it in `Compresses`. `getopt_long` gives an applet a list of options, and `regcomp`
-- is a function to what `regexec` answers (`Regexec`). cJSON is `Cjson`; the theorems say what
-- they use of doubles in `IsIeee` and of the printing of strings in `Prints`. What `read`,
-- `poll` and the clock answer is given as lists of answers (`Answer`, `Turn`, `WaitTurn`), so
-- every interleaving is one of them. A write behind a block of memory ends a model's run with a
-- result of its own (`overrun`, `crashed`, `aborted`).
--
-- Fuel: the doubling loops of the buffer and of the index run on 64 rounds, since a size_t that
-- is not 0 doubles at most 64 times before it passes any other; the probing loop runs on as many
-- rounds as there are buckets, after which it would be back where it began; the loop of
-- `parse_db_row` that doubles its buffer runs on 64 rounds, as no object is larger than
-- PTRDIFF_MAX. The loop over the lines of a buffer runs on as many rounds as it has bytes, and
-- so does the loop over inotify events; each round takes at least one byte away.
--
-- Not modelled: cJSON and miniz (third-party code, which the build links); the stream logger,
-- which only prints; the text of messages and logs.
--
pub mod Prelude
pub mod Buffer
pub mod StreamMerge
pub mod ClipStore
pub mod Base64
pub mod Json
pub mod LogParse
pub mod Dispatcher
pub mod Paths
pub mod Watch
pub mod Pipeline
