-- ===== src/ClipStore/Main/Updates.antt =====
-- `--set` and `--delete` of applets/clip_store/clip_store.c on the map that the database stands for.
use mathlib.Core.Path.{subst}
use stream_data_pipline.Prelude.{
  ℕ, ◌≡◌, refl, sym, ap, ◌∙◌, Bool, true, false, Option, none, some, List, [], ◌∷◌, ◌++◌, length,
  ◌<◌, ◌^◌, if◌then◌else◌,
}
use stream_data_pipline.Prelude.Bytes.{Bytes, str_eq, is_empty}
use stream_data_pipline.Prelude.Int.{ℤ, pos}
use stream_data_pipline.ClipStore.Row.{Row, is_live}
use stream_data_pipline.ClipStore.Format.{newline, append_db_row}
use stream_data_pipline.ClipStore.Load.{Platform, lines_of}
use stream_data_pipline.ClipStore.Load.Laws.{latest, IsReadable}
use stream_data_pipline.ClipStore.Compact.{Directory}
use stream_data_pipline.ClipStore.Main.{
  Host, Exit, ended, stored, expiry, parse_set_expr, set_pair, mode_set, mode_delete, run_mode,
}
use stream_data_pipline.ClipStore.Compact.Lines.{unlines, AreClean}
use stream_data_pipline.ClipStore.Compact.Written.{IsKept, Writes}
use stream_data_pipline.ClipStore.Main.Store.{
  Flushes, flushed, stored-flushed, stored_row, stored_row-Writes, kept-Writes, kept-IsReadable,
  IsKey, tombstone, tombstone-Writes, tombstone-IsReadable,
}

-- What a reader is shown of a key: the value of a live row, on a line.
abbrev pub shown : ℤ → Option Row → Bytes
shown now none = []
shown now (some row) = if is_live row now then row.value ++ newline ∷ [] else []

-- The map with the row of one key put in.
abbrev pub updated : Bytes → Row → (Bytes → Option Row) → Bytes → Option Row
updated key row rows k = if str_eq key k then some row else rows k

module _ {I D : Type 0} (p : Platform) (host : Host I D) where
  -- A run that ends; with code 0 its file stands for these rows.
  pub record Updates (key : Bytes) (row : Row) (dir : Directory) (r : Option Exit) : Type 0 where
    pub code : ℕ
    pub text : Bytes
    pub ends : r ≡ some (ended code (record dir { db = text }) [])
    pub readable : code ≡ 0 → IsReadable p (lines_of text)
    pub rows :
        code ≡ 0 → (k : Bytes) → stored_row p text k ≡ updated key row (stored_row p dir.db) k

  flushed-Updates :
      (row : Row) (ls : List Bytes) (dir : Directory) (q : Bool × Bytes)
      → dir.db ≡ unlines ls
      → AreClean ls
      → (q.0 ≡ true → Writes p ls (row ∷ []) q.1 × IsReadable p (lines_of q.1))
      → Updates row.key row dir (some (flushed dir q))
  unfolding latest
  flushed-Updates row ls dir (true, out) e clean w = record {
    code = 0;
    text = out;
    ends = refl;
    readable = λ _. (w refl).1;
    rows = λ _ k.
        stored_row-Writes p ls (row ∷ []) out k clean (w refl).0
        ∙ ap (λ t. updated row.key row (stored_row p t) k) (sym e);
  }
  flushed-Updates row ls dir (false, out) e clean w = record {
    code = 1;
    text = out;
    ends = refl;
    readable = λ h. cc;
    rows = λ h. cc;
  }

  stored-Updates :
      (row : Row) (ls : List Bytes) (dir : Directory) (q : Bool × Bytes)
      → Flushes host
      → dir.db ≡ unlines ls
      → AreClean ls
      → (q.0 ≡ true → Writes p ls (row ∷ []) q.1 × IsReadable p (lines_of q.1))
      → Updates row.key row dir (some (stored host.fclose dir q))
  stored-Updates row ls dir q flush e clean w =
      subst (λ r. Updates row.key row dir (some r)) (sym (stored-flushed host flush dir q))
        (flushed-Updates row ls dir q e clean w)

  -- `--set key=value` on a readable file of whole lines ends, for a key and value that can be stored;
  -- with code 0, and all that is buffered flushed by `fclose`, the file is readable and stands for the same map as before with the new row at the key.
  -- So does `--delete key`, with a tombstone at the key.
  pub run_mode-Updates :
      (ttl : ℤ) (path_len : ℕ) (dir : Directory) (ls : List Bytes)
      → Flushes host
      → dir.db ≡ unlines ls
      → AreClean ls
      → IsReadable p ls
      → ((arg key value : Bytes)
          → parse_set_expr arg ≡ some (key, value)
          → is_empty value ≡ false
          → let row : Row = record {
            key = key;
            value = value;
            expire_at = expiry ttl (host.time 0);
          } in
            IsKept p row
            → length key < 2 ^ 59
            → Updates key row dir (run_mode p host (mode_set arg) ttl path_len dir))
        × ((key : Bytes)
            → is_empty key ≡ false
            → IsKey key
            → length key < 2 ^ 59
            → Updates key (tombstone key) dir (run_mode p host (mode_delete key) ttl path_len dir))
  unfolding run_mode
  run_mode-Updates ttl path_len dir ls flush e clean readable = (
    λ arg key value parse full k small.
        let row : Row = record { key = key; value = value; expire_at = expiry ttl (host.time 0) } in
        subst (λ o. Updates key row dir (some (set_pair p host ttl o dir))) (sym parse)
          (rw full (
            stored-Updates row ls dir _ flush e clean (
              subst
                (λ t.
                  (append_db_row p.heap p.zlib host.io t key value row.expire_at).0 ≡ true
                  → Writes p ls (row ∷ [])
                      (append_db_row p.heap p.zlib host.io t key value row.expire_at).1
                    × IsReadable p (
                        lines_of (append_db_row p.heap p.zlib host.io t key value row.expire_at).1))
                (sym e)
                (λ ok. (
                  kept-Writes p host.io ls row k full ok,
                  kept-IsReadable p host.io ls clean readable row k small full ok,
                ))))),
    λ key some_key k small. rw some_key (
        stored-Updates (tombstone key) ls dir _ flush e clean (
          subst
            (λ t.
              (append_db_row p.heap p.zlib host.io t key [] (pos 0)).0 ≡ true
              → Writes p ls (tombstone key ∷ [])
                  (append_db_row p.heap p.zlib host.io t key [] (pos 0)).1
                × IsReadable p (lines_of (append_db_row p.heap p.zlib host.io t key [] (pos 0)).1))
            (sym e)
            (λ ok. (
              tombstone-Writes p host.io ls key k ok,
              tombstone-IsReadable p host.io ls clean readable key k small ok,
            )))),
  )
