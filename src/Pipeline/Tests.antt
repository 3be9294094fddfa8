-- ===== src/Pipeline/Tests.antt =====
-- A run of the whole pipeline on a file of two records. The copies of cJSON in log_parse and clip_store
-- answer for the clip of that run.
use mathlib.Core.Path.{subst}
use stream_data_pipline.Prelude.{
  List, ℕ, ◌-◌, ◌*◌, ◌≡◌, refl, sym, ap, ◌∙◌, true, false, Option, none, some, [], ◌∷◌, ◌++◌, arith,
  length, if◌then◌else◌,
}
use stream_data_pipline.Prelude.Bytes.{Bytes, codes, str_eq, starts_with, contains}
use stream_data_pipline.Prelude.Decimal.{skip_spaces, print_long, print_ℕ, digits_onto}
use stream_data_pipline.Prelude.Int.{ℤ, pos, ◌+ℤ◌}
use stream_data_pipline.Json.{Cjson, text}
use stream_data_pipline.Json.Numbers.{IsSafe, halves}
use stream_data_pipline.Json.Tests.{Item, root, str, half, sample}
use stream_data_pipline.Watch.{got}
use stream_data_pipline.StreamMerge.Fsm.{MetaRecord}
use stream_data_pipline.StreamMerge.Events.{no_events}
use stream_data_pipline.StreamMerge.Output.{ts_sec, clip_head}
use stream_data_pipline.StreamMerge.LoopTests.{env, chunk, rest, turn}
use stream_data_pipline.LogParse.Main as LogMain
use stream_data_pipline.LogParse.MainTests as LogTests
use stream_data_pipline.ClipStore.Row.{Row}
use stream_data_pipline.ClipStore.Main as StoreMain
use stream_data_pipline.ClipStore.Compact.Written.{IsKept}
use stream_data_pipline.ClipStore.FileTests.{platform, store-Compresses}
use stream_data_pipline.ClipStore.MainTests.{host_at}
use stream_data_pipline.StreamMerge.Main.{Process, opened, clip_secs, idle_secs}
use stream_data_pipline.StreamMerge.Main as MergeMain
use stream_data_pipline.LogParse.Command as LogCommand
use stream_data_pipline.Dispatcher.Config.{Config}
use stream_data_pipline.Pipeline.{Hosts, Getopt}
use stream_data_pipline.Pipeline.Clips.{clip_text}
use stream_data_pipline.Pipeline.Stored.{IsTime}

abbrev stored_path : Bytes
stored_path = codes "dir/s_0.bin"

abbrev member_of : Item → Bytes → Option Item
member_of (root line) key =
    if str_eq key (codes "type")
    then some (str (codes "clip"))
    else if str_eq key (codes "session_id")
    then some (str (codes "s"))
    else if str_eq key (codes "ts")
    then some (half (pos 0))
    else if str_eq key (codes "path")
    then some (str stored_path)
    else none
member_of (str s) key = none
member_of (half z) key = none

abbrev clip_json : Cjson Item ℤ
clip_json = record sample { member = member_of }

abbrev log_host : LogMain.Host Item ℤ
log_host = record LogTests.host { cjson = clip_json }

abbrev store_host : StoreMain.Host Item ℤ
store_host = record (host_at 50) { cjson = clip_json }

abbrev clip_row : Row
clip_row = record { key = codes "s:0"; value = stored_path; expire_at = pos 90 }

clip_row-IsKept : IsKept platform clip_row
unfolding contains
clip_row-IsKept = record {
  comp = 1 ∷ stored_path;
  storable = record {
    ample = λ n h. ground arith;
    bound = omega arith;
    compressed = refl;
    law = store-Compresses stored_path (
      omega arith,
      (
        omega arith,
        (
          omega arith,
          (
            omega arith,
            (
              omega arith,
              (
                omega arith,
                (omega arith, (omega arith, (omega arith, (omega arith, (omega arith, tt))))),
              ),
            ),
          ),
        ),
      ),
    );
    small = omega arith;
    small_comp = omega arith;
    key_plain = refl;
    value_plain = refl;
    long = omega arith;
  };
  clean = (refl, refl, refl);
  fits = omega arith;
}

-- A clip that begins in the second 0 has this row.
begins : (z : ℤ) → z ≡ pos 0 → codes "dir/s_" ++ (print_long z ++ codes ".bin") ≡ stored_path
unfolding print_long print_ℕ digits_onto
begins z h = ap (λ y. codes "dir/s_" ++ (print_long y ++ codes ".bin")) h

keyed : (z : ℤ) → z ≡ pos 0 → codes "s:" ++ print_long z ≡ codes "s:0"
unfolding print_long print_ℕ digits_onto
keyed z h = ap (λ y. codes "s:" ++ print_long y) h

takes : (ts_ms : ℤ) → ts_sec ts_ms ≡ pos 0 → IsTime env log_host platform store_host (pos 40) ts_ms
unfolding clip_text clip_head starts_with str_eq skip_spaces ◌+ℤ◌
takes ts_ms h x e plain =
    let s = ap ts_sec e ∙ h in
    let there = begins (ts_sec x.clip.start_ts_ms) s in
    record {
      parsed = record { root = _; rest = []; parses = refl; blank = refl; is = refl };
      kind = record { item = str (codes "clip"); stands = refl; reads = refl };
      read = record { root = _; rest = []; parses = refl; blank = refl; is = refl };
      session = record { item = str (codes "s"); stands = refl; reads = refl };
      seconds = record {
        value = pos 0;
        stands = record { item = half (pos 0); stands = refl; reads = refl };
        same = ap (λ z. halves.same (halves.of_ℤ z) (pos 0)) s;
        safe = subst IsSafe (sym s) (omega arith);
      };
      path = record {
        item = str stored_path;
        stands = refl;
        reads = ap (λ (v : Bytes). text (some v)) (sym there);
      };
      kept = λ n.
          subst (IsKept platform)
            (ap (λ k. record { key = k; value = stored_path; expire_at = pos 90 })
                (sym (keyed (ts_sec x.clip.start_ts_ms) s))
              ∙ ap
                  (λ v. record {
                    key = codes "s:" ++ print_long (ts_sec x.clip.start_ts_ms);
                    value = v;
                    expire_at = pos 90;
                  })
                  (sym there))
            clip_row-IsKept;
    }

abbrev record_at : ℕ → ℕ → ℕ → ℕ → MetaRecord
record_at seq offset length ts = record {
  kind = codes "data";
  seq = seq;
  offset = offset;
  length = length;
  ts_ms = pos ts;
  events = no_events;
  valid = true;
}

abbrev config : Config
config = record {
  program_name = codes "dispatcher";
  session_id = codes "s";
  src_dir = codes "dir";
  db_path = codes "db";
  ttl = codes "40";
  clip_secs = codes "5";
  idle_secs = codes "2";
  filter = codes "type=clip";
  bin_stream_merge = codes "./stream_merge";
  bin_log_parse = codes "./log_parse";
  bin_clip_store = codes "./clip_store";
}

abbrev merging : Process Item ℤ
merging = record {
  options = [];
  arguments = [];
  ms_of = λ s. elim s [ [] ↦ pos 0 | c ∷ t ↦ pos ((c - b'0') * 1000) ];
  stdout = env.stdout;
  alloc = env.alloc;
  cjson = sample;
  double = halves;
  clock = env.clock;
  system = record {
    bin_opens = true;
    dir_watched = true;
    sentinel_there = false;
    meta_opens = opened;
    wait_turns = [];
    file_watched = true;
    first = got chunk ∷ [];
    turns = turn ∷ [];
    last = got rest ∷ [];
  };
}

abbrev merge_read : List Bytes → List MergeMain.Opt × List Bytes
merge_read (bin ∷ o ∷ clip ∷ o' ∷ idle ∷ arguments) =
    (clip_secs clip ∷ idle_secs idle ∷ [], arguments)
merge_read _ = ([], [])

abbrev parse_read : List Bytes → List LogCommand.Opt
parse_read (bin ∷ o ∷ filter ∷ []) = LogCommand.opt_filter filter ∷ []
parse_read _ = []

abbrev store_read : List Bytes → List StoreMain.Opt × List Bytes
store_read (bin ∷ o ∷ db ∷ o' ∷ ttl ∷ arguments) =
    (StoreMain.opt_db db ∷ StoreMain.opt_ttl ttl ∷ [], arguments)
store_read _ = ([], [])

-- A `getopt_long` that reads the argument vectors of the dispatcher.
abbrev getopt : Getopt
getopt = record {
  merge_options = merge_read;
  parse_options = parse_read;
  store_options = store_read;
}

abbrev hosts : Hosts Item ℤ
hosts = record {
  merge_process = merging;
  parse_process = log_host;
  store_process = store_host;
  platform = platform;
  getopt = getopt;
}
