-- ===== src/Json/Strings.antt =====
-- `jsonl_write_string` of lib/jsonl_codec.c as one more append.
use stream_data_pipline.Prelude.{◌+◌, ◌<◌, ◌≡◌, some, length}
use stream_data_pipline.Prelude.Bytes.{Bytes}
use stream_data_pipline.Buffer.{Buffer, Allocator, size_max}
use stream_data_pipline.Buffer.Steps.{Holds, Adds, append_str-Adds}
use stream_data_pipline.Json.{Cjson, print_item, write_string, append_printed}

-- cJSON has memory for a string and its text, which is `quoted`.
abbrev pub Prints : {I D : Type 0} → Cjson I D → (Bytes → Bytes) → Type 0
Prints c quoted = (s : Bytes) → print_item c (c.create_string s) ≡ some (quoted s)

module _ {I D : Type 0} (c : Cjson I D) (quoted : Bytes → Bytes) (prints : Prints c quoted) where
  -- Writing a string appends exactly its quoted text, or fails as appending does.
  pub write_string-Adds :
      (m : Allocator) (s bs : Bytes) (b : Buffer)
      → Holds bs b
      → length bs + length (quoted s) < size_max
      → Adds m bs (quoted s) (write_string c m s b)
  unfolding write_string
  write_string-Adds m s bs b h fits =
      rw (prints s, append_printed) (append_str-Adds m (quoted s) bs b h fits)
