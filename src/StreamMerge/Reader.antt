-- ===== src/StreamMerge/Reader.antt =====
-- applets/stream_merge/sm_reader.c: one line of the sidecar file as a metadata record.
use stream_data_pipline.Prelude.{ℕ, ◌^◌, ◌<◌, ◌≡◌, true, Option, none, some, length, arith}
use stream_data_pipline.Prelude.Bytes.{Bytes, codes}
use stream_data_pipline.Prelude.Int.{ℤ}
use stream_data_pipline.Json.{Cjson, get_string, get_int64, get_uint64}
use stream_data_pipline.Json.Numbers.{Double, IsSafe, IsIeee}
use stream_data_pipline.Json.Laws.{get_string_iff, get_uint64_bound, get_int64-IsSafe}
use stream_data_pipline.StreamMerge.Events.{no_events}
use stream_data_pipline.StreamMerge.Fsm.{MetaRecord}
use stream_data_pipline.StreamMerge.Fsm.Laws.{IsReadable}

-- `sizeof(out->kind)`
abbrev pub kind_size : ℕ
kind_size = 16

-- The record of five fields that could all be read.
abbrev pub record_of : Option Bytes → Option ℕ → Option ℕ → Option ℕ → Option ℤ → Option MetaRecord
record_of (some kind) (some seq) (some offset) (some len) (some ts_ms) = some (record {
  kind = kind;
  seq = seq;
  offset = offset;
  length = len;
  ts_ms = ts_ms;
  events = no_events;
  valid = true;
})
record_of _ _ _ _ _ = none

module _ {I D : Type 0} (c : Cjson I D) (d : Double D) where
  -- `sm_reader_parse_line`, with `none` for -1. The fields are read without any other effect, so a
  -- getter behind one that failed makes no difference.
  unfoldable pub parse_line : Bytes → Option MetaRecord
  parse_line line =
      record_of (get_string c line (codes "kind") kind_size)
        (get_uint64 c d line (codes "sequence")) (get_uint64 c d line (codes "offset"))
        (get_uint64 c d line (codes "length")) (get_int64 c d line (codes "ts_ms"))

record_of_fields :
    (k : Option Bytes) (s o l : Option ℕ) (t : Option ℤ) (rec : MetaRecord)
    → record_of k s o l t ≡ some rec
    → (k ≡ some rec.kind)
      × (s ≡ some rec.seq)
      × (o ≡ some rec.offset)
      × (l ≡ some rec.length)
      × (t ≡ some rec.ts_ms)
      × (rec.events ≡ no_events)
      × (rec.valid ≡ true)
record_of_fields (some k) (some s) (some o) (some l) (some t) rec h = (cc, cc, cc, cc, cc, cc, cc)
record_of_fields none s o l t rec h = cc
record_of_fields (some k) none o l t rec h = cc
record_of_fields (some k) (some s) none l t rec h = cc
record_of_fields (some k) (some s) (some o) none t rec h = cc
record_of_fields (some k) (some s) (some o) (some l) none rec h = cc

-- The reader leaves the events of a record empty.
pub parse_line-plain :
    {I D : Type 0} (c : Cjson I D) (d : Double D) (line : Bytes) (rec : MetaRecord)
    → parse_line c d line ≡ some rec
    → rec.events ≡ no_events
unfolding parse_line
parse_line-plain c d line rec h =
    let (k, s, o, l, t, e, v) =
      record_of_fields (get_string c line (codes "kind") kind_size)
        (get_uint64 c d line (codes "sequence")) (get_uint64 c d line (codes "offset"))
        (get_uint64 c d line (codes "length")) (get_int64 c d line (codes "ts_ms")) rec h in
    e

module _ {I D : Type 0} (c : Cjson I D) (d : Double D) (ieee : IsIeee d) where
  -- What the reader gives is a valid record that the state machine can work on: its numbers are below
  -- 2^53, so that adding the length to the offset, or 1 to the sequence number, does not wrap around;
  -- its time stamp is a safe integer, its kind fits the 16 bytes of the field, and it has no events.
  pub parse_line-IsReadable :
      (line : Bytes) (rec : MetaRecord)
      → parse_line c d line ≡ some rec
      → IsReadable rec
        × (rec.valid ≡ true)
        × (rec.seq < 2 ^ 53)
        × (rec.offset < 2 ^ 53)
        × (rec.length < 2 ^ 53)
        × IsSafe rec.ts_ms
        × (length rec.kind < kind_size)
        × (rec.events ≡ no_events)
  unfolding parse_line
  parse_line-IsReadable line rec h =
      let (k, s, o, l, t, e, v) =
        record_of_fields (get_string c line (codes "kind") kind_size)
          (get_uint64 c d line (codes "sequence")) (get_uint64 c d line (codes "offset"))
          (get_uint64 c d line (codes "length")) (get_int64 c d line (codes "ts_ms")) rec h in
      let seq = get_uint64_bound c d ieee line (codes "sequence") rec.seq s in
      let offset = get_uint64_bound c d ieee line (codes "offset") rec.offset o in
      let len = get_uint64_bound c d ieee line (codes "length") rec.length l in
      let none : rec.events ≡ no_events = e in
      (
        record {
          seq_fits = omega arith;
          offset_fits = omega arith;
          length_fits = omega arith;
          tags = rw none (record { distinct = tt; bounded = omega arith });
        },
        v,
        seq,
        offset,
        len,
        get_int64-IsSafe c d ieee line (codes "ts_ms") rec.ts_ms t,
        ((get_string_iff c line (codes "kind") kind_size rec.kind).0 k).1,
        none,
      )
