-- ===== src/ClipStore/Row.antt =====
-- The rows of the clip database (applets/clip_store/clip_store.h), and which of them are live
-- (db_format.c and db_query.c). A pointer to a row stands for the row, so the guards against NULL
-- have no counterpart; `_alloc`, the owner of the value's memory, has none either.
use stream_data_pipline.Prelude.{Bool, false, not, ◌&&◌, if◌then◌else◌}
use stream_data_pipline.Prelude.Bytes.{Bytes, is_empty}
use stream_data_pipline.Prelude.Int.{ℤ, pos, negsuc, leb_ℤ}
use stream_data_pipline.Prelude.{true, zero, suc}

-- `row_t`
pub record Row : Type 0 where
  pub key : Bytes
  pub value : Bytes
  pub expire_at : ℤ

abbrev pub is_zero_ℤ : ℤ → Bool
is_zero_ℤ (pos zero) = true
is_zero_ℤ (pos (suc n)) = false
is_zero_ℤ (negsuc n) = false

-- `clip_row_is_expired`
unfoldable pub is_expired : Row → ℤ → Bool
is_expired row now = not (is_zero_ℤ row.expire_at) && leb_ℤ row.expire_at now

-- `clip_row_is_tombstone`
unfoldable pub is_tombstone : Row → Bool
is_tombstone row = is_empty row.value

-- `row_is_live`
unfoldable pub is_live : Row → ℤ → Bool
unfolding is_tombstone is_expired
is_live row now = if is_tombstone row then false else not (is_expired row now)
