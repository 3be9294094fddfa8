-- ===== src/Json.antt =====
-- lib/jsonl_codec.c: reading a field of a line of JSON, and writing a string. cJSON is the parameter
-- `Cjson`, and what the code does with a `double` is the parameter `Double`. The out parameter of a
-- getter is the result; `none` is -1. Pointers stand for what they point to, so the guards against
-- NULL arguments have no counterpart. The trees that cJSON allocates are freed on every path and
-- leave no trace here.
pub mod Numbers
pub mod Laws
pub mod Strings
pub mod Scalars
pub mod Tests
use stream_data_pipline.Prelude.{
  ℕ, zero, suc, ◌-◌, ◌^◌, Bool, true, false, ◌&&◌, ◌||◌, Option, none, some, leb, ◌==◌, length,
  if◌then◌else◌,
}
use stream_data_pipline.Prelude.Bytes.{Bytes, is_empty}
use stream_data_pipline.Prelude.Decimal.{skip_spaces}
use stream_data_pipline.Prelude.Int.{ℤ, pos, negsuc, pos_part}
use stream_data_pipline.Buffer.{Buffer, Status, enomem, Allocator, append_str}
use stream_data_pipline.Json.Numbers.{Double}

-- What the tests of cJSON find an item to be; the text of a string may be NULL.
pub data View (D : Type 0) : Type 0 where
  null array object : View D
  boolean : Bool → View D
  number : D → View D
  text : Option Bytes → View D

-- The functions of cJSON that the codec calls, on items `I`.
pub record Cjson (I D : Type 0) : Type 0 where
  -- `cJSON_ParseWithOpts`: the root, and the text at `parse_end`
  pub parse : Bytes → Option (I × Bytes)
  -- `cJSON_GetObjectItemCaseSensitive`
  pub member : I → Bytes → Option I
  -- `cJSON_IsString` and its kin, with `valuestring` and `valuedouble`
  pub view : I → View D
  -- `cJSON_CreateString`
  pub create_string : Bytes → Option I
  -- `cJSON_PrintUnformatted`
  pub print : I → Option Bytes

-- JSONL_MAX_SAFE_INTEGER, as an integer
abbrev pub max_safe : ℕ
max_safe = 2 ^ 53 - 1

abbrev pub is_object_view : {D : Type 0} → View D → Bool
is_object_view object = true
is_object_view _ = false

-- The copy into `out` of `n` bytes: the text and its NUL have to fit.
abbrev pub copied : ℕ → Option Bytes → Option Bytes
copied n none = none
copied n (some s) = if leb n (length s) then none else some s

module _ {I D : Type 0} (c : Cjson I D) where
  -- Only white space may stand behind the object.
  abbrev pub whole_object : Option (I × Bytes) → Option I
  whole_object none = none
  whole_object (some (root, rest)) =
      if is_object_view (c.view root) && is_empty (skip_spaces rest) then some root else none

  -- `parse_object`
  unfoldable pub parse_object : Bytes → Option I
  parse_object line = whole_object (c.parse line)

  -- `get_item`: a NULL root has no items.
  abbrev pub get_item : Option I → Bytes → Option I
  get_item none key = none
  get_item (some root) key = c.member root key

  -- What stands under the key; `null` also where nothing does.
  abbrev pub view_of : Option I → View D
  view_of none = null
  view_of (some item) = c.view item

  unfoldable pub field : Bytes → Bytes → View D
  unfolding parse_object
  field line key = view_of (get_item (parse_object line) key)

  abbrev pub string_of : ℕ → View D → Option Bytes
  string_of n (text s) = copied n s
  string_of n _ = none

  -- `jsonl_get_string` into `n` bytes
  unfoldable pub get_string : Bytes → Bytes → ℕ → Option Bytes
  unfolding field
  get_string line key n = if n == 0 then none else string_of n (field line key)

  module _ (d : Double D) where
    -- The value is in range, and `int64_t` holds it without a fraction.
    abbrev pub int64_of : View D → Option ℤ
    int64_of (number x) =
        if d.lt x (d.of_ℤ (negsuc (max_safe - 1))) || d.lt (d.of_ℤ (pos max_safe)) x
        then none
        else if d.same (d.of_ℤ (d.trunc x)) x
        then some (d.trunc x)
        else none
    int64_of _ = none

    -- `jsonl_get_int64`
    unfoldable pub get_int64 : Bytes → Bytes → Option ℤ
    unfolding field
    get_int64 line key = int64_of (field line key)

    -- A value that is not below 0 converts to `uint64_t` as it does to `int64_t`.
    abbrev pub uint64_of : View D → Option ℕ
    uint64_of (number x) =
        if d.lt x (d.of_ℤ (pos 0)) || d.lt (d.of_ℤ (pos max_safe)) x
        then none
        else if d.same (d.of_ℤ (pos (pos_part (d.trunc x)))) x
        then some (pos_part (d.trunc x))
        else none
    uint64_of _ = none

    -- `jsonl_get_uint64`
    unfoldable pub get_uint64 : Bytes → Bytes → Option ℕ
    unfolding field
    get_uint64 line key = uint64_of (field line key)

  abbrev pub bool_of : View D → Option Bool
  bool_of (boolean b) = some b
  bool_of _ = none

  -- `jsonl_get_bool`
  unfoldable pub get_bool : Bytes → Bytes → Option Bool
  unfolding field
  get_bool line key = bool_of (field line key)

  abbrev pub is_some : Option I → Bool
  is_some none = false
  is_some (some item) = true

  -- `jsonl_is_object`
  unfoldable pub is_object : Bytes → Bool
  unfolding parse_object
  is_object line = is_some (parse_object line)

  -- A string as it is, any other scalar as cJSON prints it.
  abbrev pub scalar_of : ℕ → I → View D → Option Bytes
  scalar_of n item object = none
  scalar_of n item array = none
  scalar_of n item (text s) = copied n s
  scalar_of n item null = copied n (c.print item)
  scalar_of n item (boolean b) = copied n (c.print item)
  scalar_of n item (number x) = copied n (c.print item)

  abbrev pub scalar_text : ℕ → Option I → Option Bytes
  scalar_text n none = none
  scalar_text n (some item) = scalar_of n item (c.view item)

  -- `jsonl_get_scalar_text` into `n` bytes
  unfoldable pub get_scalar_text : Bytes → Bytes → ℕ → Option Bytes
  unfolding parse_object
  get_scalar_text line key n =
      if n == 0 then none else scalar_text n (get_item (parse_object line) key)

  abbrev pub print_item : Option I → Option Bytes
  print_item none = none
  print_item (some item) = c.print item

  abbrev pub append_printed : Allocator → Option Bytes → Buffer → Status × Buffer
  append_printed m none b = (enomem, b)
  append_printed m (some s) b = append_str m b (some s)

  -- `jsonl_write_string`. cJSON gives no item and no text only where memory runs out; the buffer is
  -- then left as it is.
  unfoldable pub write_string : Allocator → Bytes → Buffer → Status × Buffer
  write_string m value b = append_printed m (print_item (c.create_string value)) b
