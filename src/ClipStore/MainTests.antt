-- ===== src/ClipStore/MainTests.antt =====
-- Runs of clip_store, and the theorems at them, with the compressor of FileTests.
use stream_data_pipline.Prelude.{
  ℕ, ◌≡◌, refl, true, false, Option, some, none, [], ◌∷◌, arith, replicate, length-replicate,
}
use stream_data_pipline.Prelude.Bytes.{Bytes, is_empty, codes, split_at, contains}
use stream_data_pipline.Prelude.Int.{ℤ, pos, ◌+ℤ◌}
use stream_data_pipline.Prelude.Decimal.{strtol, skip_spaces}
use stream_data_pipline.Buffer.{Allocator}
use stream_data_pipline.Json.Numbers.{halves}
use stream_data_pipline.Json.Tests.{Item, sample}
use stream_data_pipline.ClipStore.Row.{Row}
use stream_data_pipline.ClipStore.Compact.{Directory}
use stream_data_pipline.ClipStore.Compact.Written.{IsKept}
use stream_data_pipline.ClipStore.FileTests.{appending, platform, calls, store-Compresses}
use stream_data_pipline.ClipStore.Main.{
  Host, expiry, parse_options, parse_ttl, parse_set_expr, defaults, opt_db, opt_set, opt_get,
  settings, mode_set, mode_delete, run_mode,
}
use stream_data_pipline.ClipStore.Main.Store.{stored_row, IsKey, tombstone}
use stream_data_pipline.ClipStore.Main.Updates.{shown, updated}
use stream_data_pipline.ClipStore.Main.Reading as MainReading
use stream_data_pipline.ClipStore.Main.Piped as MainPiped
use stream_data_pipline.ClipStore.Main.Clips as MainClips

abbrev memory : Allocator
memory = record {
  grants = λ n. true;
  fresh = λ n. replicate n 0;
  length-fresh = λ n. length-replicate n 0;
}

abbrev pub host_at : ℕ → Host Item ℤ
host_at now = record {
  opens = true;
  locks = true;
  streams = true;
  read_error = false;
  io = appending;
  fclose = λ file text. text;
  calls = calls;
  time = λ i. pos now;
  input = codes "{7\n" ∷ codes "no clip\n" ∷ [];
  alloc = memory;
  cjson = sample;
  double = halves;
}

abbrev pub fresh_directory : Directory
fresh_directory = record { db = []; tmp = none }

last_option_wins :
    parse_options (opt_get (codes "a") ∷ opt_db (codes "f") ∷ opt_set (codes "k=up") ∷ []) defaults
    ≡ settings
        (record { db = some (codes "f"); ttl_arg = codes "3600"; mode = mode_set (codes "k=up") })
unfolding parse_options
last_option_wins = refl

ttl_of_an_hour : parse_ttl (codes "3600") ≡ some (pos 3600)
unfolding parse_ttl strtol skip_spaces
ttl_of_an_hour = refl

splits : parse_set_expr (codes "k=up") ≡ some (codes "k", codes "up")
unfolding parse_set_expr split_at
splits = refl

no_sign : contains b'=' (codes "k") ≡ false
unfolding contains
no_sign = refl

abbrev set_row : Row
set_row = record { key = codes "k"; value = codes "up"; expire_at = expiry (pos 40) (pos 50) }

set_row-IsKept : IsKept platform set_row
unfolding contains ◌+ℤ◌
set_row-IsKept = record {
  comp = 1 ∷ codes "up";
  storable = record {
    ample = λ n h. ground arith;
    bound = omega arith;
    compressed = refl;
    law = store-Compresses (codes "up") (omega arith, (omega arith, tt));
    small = omega arith;
    small_comp = omega arith;
    key_plain = refl;
    value_plain = refl;
    long = omega arith;
  };
  clean = (refl, refl, refl);
  fits = omega arith;
}

k-IsKey : IsKey (codes "k")
unfolding contains
k-IsKey = record { plain = refl; clean = (refl, refl, refl) }

run_mode-set_get_example :
    MainReading.ThenShows platform
      (host_at 50)
      (host_at 60)
      (pos 40)
      (pos 40)
      1
      1
      fresh_directory
      []
      (codes "k")
      set_row
      (run_mode platform (host_at 50) (mode_set (codes "k=up")) (pos 40) 1 fresh_directory)
run_mode-set_get_example =
    MainReading.run_mode-set_get platform (host_at 50) (host_at 60) (pos 40) (pos 40) 1 1
      fresh_directory [] (codes "k") (codes "up") (λ file text. refl) refl tt tt no_sign refl refl
      set_row-IsKept (omega arith)

run_mode-delete_get_example :
    MainReading.ThenShows platform
      (host_at 50)
      (host_at 60)
      (pos 40)
      (pos 40)
      1
      1
      fresh_directory
      []
      (codes "k")
      (tombstone (codes "k"))
      (run_mode platform (host_at 50) (mode_delete (codes "k")) (pos 40) 1 fresh_directory)
    × (shown
          (pos 60)
          (updated (codes "k") (tombstone (codes "k")) (stored_row platform []) (codes "k"))
        ≡ [])
run_mode-delete_get_example =
    MainReading.run_mode-delete_get platform (host_at 50) (host_at 60) (pos 40) (pos 40) 1 1
      fresh_directory [] (codes "k") (λ file text. refl) refl tt tt refl k-IsKey (omega arith)

abbrev piped_row : Row
piped_row = MainPiped.clip_row platform (host_at 50) (pos 40) (codes "s") (pos 7) (codes "up") 1

abbrev Keeps : Bytes × ℤ × Bytes → Type 0
Keeps (session, ts, path) =
    (is_empty path ≡ false)
    × ((n : ℕ)
        → IsKept platform (MainPiped.clip_row platform (host_at 50) (pos 40) session ts path n))

abbrev KeepsAny : Option (Bytes × ℤ × Bytes) → Type 0
KeepsAny none = Unit
KeepsAny (some q) = Keeps q
