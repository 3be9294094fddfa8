-- ===== src/ClipStore/Main/Reading.antt =====
-- Reading from the database of applets/clip_store/clip_store.c, and reading back what was set or
-- deleted.
use mathlib.Core.Path.{subst}
use stream_data_pipline.Prelude.{
  ℕ, ◌^◌, ◌<◌, ◌≡◌, refl, sym, Bool, true, false, Option, none, some, List, [], ◌∷◌, ◌++◌,
  if◌then◌else◌, Bool-cases, inl, inr, length,
}
use stream_data_pipline.Prelude.Bytes.{Bytes, str_eq_refl, is_empty, contains, split_at-append}
use stream_data_pipline.Prelude.Int.{ℤ}
use stream_data_pipline.ClipStore.Row.{Row, is_live, is_tombstone}
use stream_data_pipline.ClipStore.Index.{Memory, copies}
use stream_data_pipline.ClipStore.Load.{Platform, lines_of, failed}
use stream_data_pipline.ClipStore.Load.Laws.{answer, IsReadable, load_latest_row-latest}
use stream_data_pipline.ClipStore.Compact.{Directory}
use stream_data_pipline.ClipStore.Compact.Lines.{unlines, AreClean}
use stream_data_pipline.ClipStore.Compact.Written.{IsKept}
use stream_data_pipline.ClipStore.Main.{
  Host, Exit, ended, expiry, parse_set_expr, mode_set, mode_delete, mode_get, run_mode, show_found,
}
use stream_data_pipline.ClipStore.Main.Store.{Flushes, stored_row, tombstone, IsKey}
use stream_data_pipline.ClipStore.Main.Updates.{shown, Updates, updated, run_mode-Updates}

-- A run that ends and leaves the directory as it is; with code 0 it has printed this.
pub record Shows (out : Bytes) (dir : Directory) (r : Option Exit) : Type 0 where
  pub code : ℕ
  pub printed : Bytes
  pub ends : r ≡ some (ended code dir printed)
  pub shows : code ≡ 0 → printed ≡ out

Shows-failure : (out : Bytes) (dir : Directory) → Shows out dir (some (ended 1 dir []))
Shows-failure out dir = record { code = 1; printed = []; ends = refl; shows = λ h. cc }

Shows-answer :
    (m : Memory) (dir : Directory) (now : ℤ) (o : Option Row)
    → Shows (shown now o) dir (show_found dir now (some (answer m o)))
Shows-answer m dir now none = record { code = 0; printed = []; ends = refl; shows = λ h. refl }
Shows-answer m dir now (some row) = elim (Bool-cases (copies m row)) [
  | inl c ↦
      rw c (record { code = 0; printed = shown now (some row); ends = refl; shows = λ h. refl })
  | inr c ↦ rw c (Shows-failure (shown now (some row)) dir)
]

Shows-done :
    (m : Memory) (dir : Directory) (now : ℤ) (o : Option Row) (done : Bool)
    → Shows (shown now o) dir (show_found dir now (some (if done then answer m o else failed)))
Shows-done m dir now o true = Shows-answer m dir now o
Shows-done m dir now o false = Shows-failure (shown now o) dir

module _ {I D : Type 0} (p : Platform) (host : Host I D) where
  -- `--get key` ends and changes nothing; with code 0 it has printed the value that the key has in
  -- the file, if that row is live, and nothing otherwise.
  pub run_mode-Shows :
      (key : Bytes) (ttl : ℤ) (path_len : ℕ) (dir : Directory)
      → IsReadable p (lines_of dir.db)
      → Shows
          (shown (host.time 0) (stored_row p dir.db key))
          dir
          (run_mode p host (mode_get key) ttl path_len dir)
  unfolding run_mode
  run_mode-Shows key ttl path_len dir readable =
      let (done, after, l, f) =
        load_latest_row-latest p (record { text = dir.db; error = host.read_error }) key readable in
      subst
        (λ q.
          Shows (shown (host.time 0) (stored_row p dir.db key)) dir
            (show_found dir (host.time 0) q))
        (sym f) (Shows-done p.memory dir (host.time 0) (stored_row p dir.db key) done)

-- The expression of a key without '=' is split into the key and the value.
split_expr :
    (key value : Bytes)
    → contains b'=' key ≡ false
    → is_empty key ≡ false
    → parse_set_expr (key ++ b'=' ∷ value) ≡ some (key, value)
unfolding parse_set_expr
split_expr key value one some_key =
    rw (parse_set_expr, split_at-append b'=' key value one, some_key) refl

module _ {I D : Type 0} (p : Platform) (host other : Host I D) (ttl later : ℤ)
    (path_len path_len' : ℕ) (dir : Directory) (ls : List Bytes) where
  -- What `--get` shows of every key after a run that has put in a row.
  abbrev pub ThenShows : Bytes → Row → Option Exit → Type 0
  ThenShows key row r =
      (code : ℕ) × (text : Bytes) × (r ≡ some (ended code (record dir { db = text }) []))
      × (code ≡ 0
          → (k : Bytes)
          → Shows (shown (other.time 0) (updated key row (stored_row p dir.db) k))
              (record dir { db = text })
              (run_mode p other (mode_get k) later path_len' (record dir { db = text })))

  shows_updated :
      (key : Bytes) (row : Row) (r : Option Exit)
      → Updates p host key row dir r
      → ThenShows key row r
  shows_updated key row r u = (
    u.code,
    u.text,
    u.ends,
    λ ok k.
        subst
          (λ o.
            Shows (shown (other.time 0) o) (record dir { db = u.text })
              (run_mode p other (mode_get k) later path_len' (record dir { db = u.text })))
          (u.rows ok k)
          (run_mode-Shows p other k later path_len' (record dir { db = u.text }) (u.readable ok)),
  )

  -- `--set key=value` and then `--get` of any key, on a database of whole lines none of which has
  -- 2^61 bytes or a value that fills the buffer that it is decompressed into, for a key of 1 to
  -- 2^59 - 1 bytes without '=', tab, NUL and line ends, and a value that is not empty, and with its
  -- row can be written and read back: when the `fclose` of the first writes all that is buffered,
  -- both end, and if both end with code 0 the second has printed, for the key that was set, the
  -- value, unless it is expired by then, and for any other key what it had before.
  pub run_mode-set_get :
      (key value : Bytes)
      → Flushes host
      → dir.db ≡ unlines ls
      → AreClean ls
      → IsReadable p ls
      → contains b'=' key ≡ false
      → is_empty key ≡ false
      → is_empty value ≡ false
      → let row : Row = record { key = key; value = value; expire_at = expiry ttl (host.time 0) } in
        IsKept p row
        → length key < 2 ^ 59
        → ThenShows key row (run_mode p host (mode_set (key ++ b'=' ∷ value)) ttl path_len dir)
  run_mode-set_get key value flush e clean readable one some_key full k small =
      shows_updated key _ _ (
        (run_mode-Updates p host ttl path_len dir ls flush e clean readable).0 (key ++ b'=' ∷ value)
          key value (split_expr key value one some_key) full k small)

  -- `--delete key` and then `--get` of any key, on a database of whole lines none of which has 2^61
  -- bytes or a value that fills the buffer that it is decompressed into, for a key of 1 to 2^59 - 1
  -- bytes without tab, NUL and line ends: when the `fclose` of the first writes all that is
  -- buffered, both end, and if both end with code 0 the second has printed nothing for the key that
  -- was deleted, and for any other key what it had before.
  pub run_mode-delete_get :
      (key : Bytes)
      → Flushes host
      → dir.db ≡ unlines ls
      → AreClean ls
      → IsReadable p ls
      → is_empty key ≡ false
      → IsKey key
      → length key < 2 ^ 59
      → ThenShows key (tombstone key) (run_mode p host (mode_delete key) ttl path_len dir)
        × (shown (other.time 0) (updated key (tombstone key) (stored_row p dir.db) key) ≡ [])
  unfolding is_live is_tombstone
  run_mode-delete_get key flush e clean readable some_key k small = (
    shows_updated key _ _ (
        (run_mode-Updates p host ttl path_len dir ls flush e clean readable).1 key some_key k
          small),
    rw (str_eq_refl key) refl,
  )
