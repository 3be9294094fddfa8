-- ===== src/ClipStore/Main/Granted.antt =====
-- The default mode of applets/clip_store/clip_store.c when no call of stdio or of an allocator fails: it
-- ends with code 0.
use stream_data_pipline.Prelude.{
  sym, ℕ, suc, ◌≡◌, refl, ap, ◌∙◌, Bool, true, false, Option, none, some, List, [], ◌∷◌,
}
use stream_data_pipline.Prelude.Bytes.{Bytes, is_empty}
use stream_data_pipline.Prelude.Int.{ℤ}
use stream_data_pipline.ClipStore.Row.{Row}
use stream_data_pipline.ClipStore.Format.{append_db_row, row_text}
use stream_data_pipline.ClipStore.Format.Reads.{pack_eq}
use stream_data_pipline.ClipStore.Load.{Platform}
use stream_data_pipline.ClipStore.Compact.{Directory}
use stream_data_pipline.ClipStore.Compact.Written.{IsKept, packed}
use stream_data_pipline.ClipStore.Main.{
  Exit, Host, crashed, clip_of, append_key, append_clip, append_lines, behind_row, ended,
  mode_append, run_mode,
}
use stream_data_pipline.ClipStore.Main.Piped.{
  clip_row, key_of-clip_key, StorableBefore, AreStorable, clip_rows, run_mode-clip_rows,
}
use stream_data_pipline.ClipStore.Main.Store.{Flushes, flushed, stored-flushed, stored_row}
use stream_data_pipline.ClipStore.Load.Laws.{latest}
use stream_data_pipline.ClipStore.Compact.Lines.{unlines, AreClean}

-- Every call of stdio and of the allocator goes well.
pub record GoesWell {I D : Type 0} (host : Host I D) : Type 0 where
  pub seeks : (file : Bytes) → host.io.seek_ok file ≡ true
  pub prints : (file text : Bytes) → (host.io.print file text).0 ≡ true
  pub grants : (n : ℕ) → host.alloc.grants n ≡ true
  pub flushes : Flushes host

module _ {I D : Type 0} (p : Platform) (host : Host I D) (well : GoesWell host) where
  row_ok :
      (file : Bytes) (row : Row)
      → IsKept p row
      → is_empty row.value ≡ false
      → (append_db_row p.heap p.zlib host.io file row.key row.value row.expire_at).0 ≡ true
  unfolding append_db_row
  row_ok file row k full =
      rw (well.seeks file, full, pack_eq p.heap p.zlib row k.comp k.storable)
        (well.prints file (row_text row.key (packed p row k) row.expire_at))

  behind_row-fine :
      (q : Bool × Bytes) (next : Bytes → Bool × Bytes)
      → q.0 ≡ true
      → ((file : Bytes) → (next file).0 ≡ true)
      → (behind_row p host q next).0 ≡ true
  behind_row-fine (true, file) next h go = go file
  behind_row-fine (false, file) next h go = cc

  module _ (life : ℤ) where
    clip_ok :
        (o : Option (Bytes × ℤ × Bytes)) (times : ℕ) (file : Bytes) (rest : ℕ → Type 0)
        (next : ℕ → Bytes → Bool × Bytes)
        → ((times' : ℕ) (file' : Bytes) → rest times' → (next times' file').0 ≡ true)
        → StorableBefore p host life o times rest
        → (append_clip p host life o times file next).0 ≡ true
    clip_ok none times file rest next go s = go times file s
    clip_ok (some (session, ts, path)) times file rest next go (small, kept, full, s) =
        let row = clip_row p host life session ts path times in
        let key = (key_of-clip_key p host session ts small).1 well.grants in
        behind_row-fine _ (next (suc times))
          (ap (λ k. (append_key p host k path row.expire_at file).0) key
            ∙ row_ok file row kept full)
          (λ file'. go (suc times) file' s)

    append_lines_ok :
        (lines : List Bytes) (times : ℕ) (file : Bytes)
        → AreStorable p host life lines times
        → (append_lines p host life lines times file).0 ≡ true
    unfolding append_lines
    append_lines_ok [] times file s = refl
    append_lines_ok (line ∷ lines) times file s =
        clip_ok (clip_of p host line) times file (AreStorable p host life lines)
          (append_lines p host life lines) (append_lines_ok lines) s

    stored_zero :
        (dir : Directory) (q : Bool × Bytes)
        → q.0 ≡ true
        → flushed dir q ≡ ended 0 (record dir { db = q.1 }) []
    stored_zero dir (true, text) h = refl
    stored_zero dir (false, text) h = cc

    -- The default mode ends with code 0 then, if every clip can be stored.
    pub run_mode-GoesWell :
        (path_len : ℕ) (dir : Directory)
        → AreStorable p host life host.input 1
        → (text : Bytes) × (run_mode p host mode_append life path_len dir
            ≡ some (ended 0 (record dir { db = text }) []))
    unfolding run_mode
    run_mode-GoesWell path_len dir s = (
      _,
      ap some (
          stored-flushed host well.flushes dir _
          ∙ stored_zero dir _ (append_lines_ok host.input 1 dir.db s)),
    )

-- clip_store has ended with these rows put in.
pub record HasStored (p : Platform) (rows : List Row) (dir : Directory) (o : Option Exit)
    : Type 0 where
  pub text : Bytes
  pub ends : o ≡ some (ended 0 (record dir { db = text }) [])
  pub puts : (key : Bytes) → stored_row p text key ≡ latest (stored_row p dir.db key) rows key

abbrev pub code_of : Option Exit → ℕ
code_of (some (ended code dir out)) = code
code_of (some crashed) = 0
code_of none = 0

module _ {I D : Type 0} (p : Platform) (host : Host I D) (life : ℤ) where
  -- clip_store ends with code 0, with the rows of its input put in.
  pub stores_rows :
      (rows : List Row) (path_len : ℕ) (dir : Directory) (ls : List Bytes)
      → dir.db ≡ unlines ls
      → AreClean ls
      → GoesWell host
      → AreStorable p host life host.input 1 × (clip_rows p host life host.input 1 ≡ rows)
      → HasStored p rows dir (run_mode p host mode_append life path_len dir)
  stores_rows rows path_len dir ls e clean well (storable, same) =
      let (code, text, run, puts) =
        run_mode-clip_rows p host life path_len dir ls well.flushes e clean storable in
      let (text', run') = run_mode-GoesWell p host well life path_len dir storable in
      let zero_code : code ≡ 0 = ap code_of (sym run ∙ run') in
      record {
        text = text;
        ends = run ∙ ap (λ c. some (ended c (record dir { db = text }) [])) zero_code;
        puts = λ key. puts zero_code key ∙ ap (λ rs. latest (stored_row p dir.db key) rs key) same;
      }
