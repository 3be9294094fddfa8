-- ===== src/ClipStore/Main/Piped.antt =====
-- The default mode of applets/clip_store/clip_store.c: the clips that stream_merge prints are read from
-- the standard input and appended to the database.
use stream_data_pipline.Prelude.{
  ℕ, suc, ◌^◌, ◌<◌, ◌≡◌, refl, sym, ap, ◌∙◌, Bool, true, false, Option, none, some, List, [], ◌∷◌,
  ◌++◌, arith, length, length-append, append-nil, inl, inr, ◌⊎◌,
}
use stream_data_pipline.Prelude.Bytes.{Bytes, is_empty}
use stream_data_pipline.Prelude.Decimal.{print_long, length-print_long}
use stream_data_pipline.Prelude.Int.{ℤ}
use stream_data_pipline.Buffer.{empty}
use stream_data_pipline.Buffer.Steps.{
  printed-Adds, try-Adds, append_str-Adds, append_char-Adds, empty-Holds,
}
use stream_data_pipline.ClipStore.Row.{Row}
use stream_data_pipline.ClipStore.Load.{Platform}
use stream_data_pipline.ClipStore.Load.Laws.{rows_of, latest}
use stream_data_pipline.ClipStore.Compact.{Directory}
use stream_data_pipline.ClipStore.Compact.Lines.{unlines, AreClean}
use stream_data_pipline.ClipStore.Compact.Written.{IsKept, Writes, kept_line, one_more, stored_line}
use stream_data_pipline.ClipStore.Main.{
  Host, expiry, clip_of, key_of, append_key, append_clip, append_lines, behind_row, ended,
  mode_append, run_mode,
}
use stream_data_pipline.ClipStore.Main.Store.{
  Flushes, flushed, stored-flushed, stored_row, stored_row-Writes,
}

-- The key of a clip.
abbrev pub clip_key : Bytes → ℤ → Bytes
clip_key session ts = session ++ (b':' ∷ print_long ts)

not_true : false ≡ true → ⊥
not_true e = cc

module _ {I D : Type 0} (p : Platform) (host : Host I D) where
  pub key_of-clip_key :
      (session : Bytes) (ts : ℤ)
      → length session < 2 ^ 32
      → ((key_of p host session ts ≡ none)
          ⊎ (key_of p host session ts ≡ some (clip_key session ts)))
        × (((n : ℕ) → host.alloc.grants n ≡ true)
            → key_of p host session ts ≡ some (clip_key session ts))
  unfolding key_of
  key_of-clip_key session ts small =
      let m = host.alloc in
      let number = print_long ts in
      let d = length-print_long ts in
      let l = length-append session (b':' ∷ []) in
      printed-Adds m (clip_key session ts) _ (
        try-Adds m [] session (b':' ∷ number) _ _
          (append_str-Adds m session [] empty (empty-Holds m) (omega arith))
          (λ b h.
            try-Adds m session (b':' ∷ []) number _ _
              (append_char-Adds m b':' session b h (omega arith))
              (λ b' h'.
                append_str-Adds m number (session ++ b':' ∷ []) b' h' (omega (arith, d, l)))))

  behind_row-ok :
      (q : Bool × Bytes) (next : Bytes → Bool × Bytes) (out : Bytes)
      → behind_row p host q next ≡ (true, out)
      → (q.0 ≡ true) × (next q.1 ≡ (true, out))
  behind_row-ok (true, file) next out e = (refl, e)
  behind_row-ok (false, file) next out e = absurd (not_true (ap (λ (q : Bool × Bytes). q.0) e))

  module _ (life : ℤ) where
    abbrev pub clip_row : Bytes → ℤ → Bytes → ℕ → Row
    clip_row session ts path times = record {
      key = clip_key session ts;
      value = path;
      expire_at = expiry life (host.time times);
    }

    abbrev pub row_before : Option (Bytes × ℤ × Bytes) → ℕ → (ℕ → List Row) → List Row
    row_before none times rest = rest times
    row_before (some (session, ts, path)) times rest =
        clip_row session ts path times ∷ rest (suc times)

    -- The rows of the clips on the lines, when the clock was read `times` times before.
    unfoldable pub clip_rows : List Bytes → ℕ → List Row
    clip_rows [] times = []
    clip_rows (line ∷ lines) times = row_before (clip_of p host line) times (clip_rows lines)

    abbrev pub StorableBefore : Option (Bytes × ℤ × Bytes) → ℕ → (ℕ → Type 0) → Type 0
    StorableBefore none times rest = rest times
    StorableBefore (some (session, ts, path)) times rest =
        (length session < 2 ^ 32)
        × IsKept p (clip_row session ts path times)
        × (is_empty path ≡ false)
        × rest (suc times)

    -- Every clip can be written and read back.
    abbrev pub AreStorable : List Bytes → ℕ → Type 0
    AreStorable [] times = Unit
    AreStorable (line ∷ lines) times =
        StorableBefore (clip_of p host line) times (AreStorable lines)

    abbrev Goes : List Bytes → List Bytes → ℕ → Type 0
    Goes ls lines times =
        (out : Bytes)
        → append_lines p host life lines times (unlines ls) ≡ (true, out)
        → AreStorable lines times
        → Writes p ls (clip_rows lines times) out

    clip-Writes :
        (o : Option (Bytes × ℤ × Bytes)) (lines ls : List Bytes) (times : ℕ) (out : Bytes)
        → ((ls' : List Bytes) (times' : ℕ) → Goes ls' lines times')
        → append_clip p host life o times (unlines ls) (append_lines p host life lines)
          ≡ (true, out)
        → StorableBefore o times (AreStorable lines)
        → Writes p ls (row_before o times (clip_rows lines)) out
    clip-Writes none lines ls times out go e s = go ls times out e s
    clip-Writes (some (session, ts, path)) lines ls times out go e (small, kept, full, s) =
        let row = clip_row session ts path times in
        let file = unlines ls in
        let q = append_key p host (key_of p host session ts) path row.expire_at file in
        let (ok, later) = behind_row-ok q (append_lines p host life lines (suc times)) out e in
        elim (key_of-clip_key session ts small).0 [
          | inl n ↦
              absurd
                (not_true (sym (ap (λ k. (append_key p host k path row.expire_at file).0) n) ∙ ok))
          | inr n ↦
              let same = ap (λ k. append_key p host k path row.expire_at file) n in
              let done = sym (ap (λ (r : Bool × Bytes). r.0) same) ∙ ok in
              let text =
                ap (λ (r : Bool × Bytes). r.1) same
                ∙ kept_line p host.io (host.time times) row ls kept full done in
              one_more p host.io (host.time times) row kept ls (clip_rows lines (suc times)) out (
                go (ls ++ stored_line p row kept ∷ []) (suc times) out
                  (ap (append_lines p host life lines (suc times)) (sym text) ∙ later) s)
        ]

    append_lines-Writes : (lines ls : List Bytes) (times : ℕ) → Goes ls lines times
    unfolding append_lines clip_rows rows_of
    append_lines-Writes [] ls times out e s = record {
      new = [];
      text = sym (ap (λ (r : Bool × Bytes). r.1) e) ∙ ap unlines (sym (append-nil ls));
      clean = tt;
      reads = refl;
    }
    append_lines-Writes (line ∷ lines) ls times out e s =
        clip-Writes (clip_of p host line) lines ls times out
          (λ ls' times'. append_lines-Writes lines ls' times') e s

    ended_with :
        (dir : Directory) (ls : List Bytes) (q : Bool × Bytes)
        → dir.db ≡ unlines ls
        → AreClean ls
        → ((out : Bytes) → q ≡ (true, out) → Writes p ls (clip_rows host.input 1) out)
        → (code : ℕ) × (text : Bytes) × (some (flushed dir q)
            ≡ some (ended code (record dir { db = text }) []))
          × (code ≡ 0
              → (k : Bytes)
              → stored_row p text k ≡ latest (stored_row p dir.db k) (clip_rows host.input 1) k)
    ended_with dir ls (true, out) e clean w = (
      0,
      out,
      refl,
      λ _ k.
          stored_row-Writes p ls (clip_rows host.input 1) out k clean (w out refl)
          ∙ ap (λ t. latest (stored_row p t k) (clip_rows host.input 1) k) (sym e),
    )
    ended_with dir ls (false, out) e clean w = (1, out, refl, λ h. cc)

    -- The default mode ends. If every clip of the input can be stored and it ends with code 0, then the
    -- file, which consisted of whole lines, stands for the map it stood for before with the clips of
    -- the input put in, one after the other, under the keys "session:ts"; a line that is no clip is
    -- passed over.
    pub run_mode-clip_rows :
        (path_len : ℕ) (dir : Directory) (ls : List Bytes)
        → Flushes host
        → dir.db ≡ unlines ls
        → AreClean ls
        → AreStorable host.input 1
        → (code : ℕ) × (text : Bytes) × (run_mode p host mode_append life path_len dir
            ≡ some (ended code (record dir { db = text }) []))
          × (code ≡ 0
              → (k : Bytes)
              → stored_row p text k ≡ latest (stored_row p dir.db k) (clip_rows host.input 1) k)
    unfolding run_mode
    run_mode-clip_rows path_len dir ls flush e clean s =
        let q = append_lines p host life host.input 1 dir.db in
        let (code, text, same, puts) = ended_with dir ls q e clean (λ out h.
          append_lines-Writes host.input ls 1 out
            (ap (append_lines p host life host.input 1) (sym e) ∙ h) s) in
        (code, text, ap some (stored-flushed host flush dir q) ∙ same, puts)
