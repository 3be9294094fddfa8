-- ===== src/ClipStore/Compact/Laws.antt =====
-- Compaction (db_compact.c): all or nothing, and what is written is the live rows.
use stream_data_pipline.Prelude.{
  ℕ, ◌+◌, ◌≡◌, refl, ap, ◌∙◌, Bool, true, false, not, Option, none, some, [], inl, inr, Bool-cases,
  if◌then◌else◌, leb,
}
use stream_data_pipline.Prelude.Bytes.{Bytes}
use stream_data_pipline.Prelude.Int.{ℤ}
use stream_data_pipline.ClipStore.Index.{RowIndex, zero_index}
use stream_data_pipline.ClipStore.Load.{Platform, loaded, load_latest_rows, lines_of}
use stream_data_pipline.ClipStore.Load.Laws.{IsReadable, load_latest_rows-Loads, rows_of, latest}
use stream_data_pipline.ClipStore.Index.Grow.{IsIndex}
use stream_data_pipline.ClipStore.Index.Insert.{view}
use stream_data_pipline.ClipStore.Compact.{
  Directory, Calls, path_max, write_live, publish, rewrite, Compacted, compacted,
  db_rewrite_compact,
}

-- What a compaction leaves: the old file, or the whole new one.
pub record Replaces (p : Platform) (calls : Calls) (now : ℤ) (error : Bool) (dir : Directory)
    (result : Option Compacted) : Type 0 where
  pub done : Bool
  pub after : Directory
  pub index : RowIndex
  pub returns : result ≡ some (compacted done after)
  pub unchanged : done ≡ false → after.db ≡ dir.db
  pub loads :
      done ≡ true
      → load_latest_rows p (record { text = dir.db; error = error }) zero_index
        ≡ some (loaded true index)
  pub formed : IsIndex index
  pub views :
      done ≡ true
      → (key : Bytes) → view index.slots key ≡ latest none (rows_of p (lines_of dir.db)) key
  pub wrote : done ≡ true → write_live p calls.io now index.slots [] ≡ (true, after.db)
  pub cleared : done ≡ true → after.tmp ≡ none

module _ (p : Platform) (calls : Calls) (now : ℤ) (dir : Directory) where
  abbrev Rewrites : RowIndex → Bool × Directory → Type 0
  Rewrites index r =
      (r.0 ≡ false → r.1.db ≡ dir.db)
      × (r.0 ≡ true → write_live p calls.io now index.slots [] ≡ (true, r.1.db))
      × (r.0 ≡ true → r.1.tmp ≡ none)

  published :
      (index : RowIndex) (w : Bool × Bytes)
      → write_live p calls.io now index.slots [] ≡ w
      → Rewrites index (publish calls w dir)
  published index (false, tmp) e = (λ x. refl, λ x. cc, λ x. cc)
  published index (true, tmp) e = go calls.sync_ok calls.rename_ok
    where
      go :
          (s r : Bool)
          → Rewrites index (
              if not s
              then (false, record dir { tmp = none })
              else if not r
              then (false, record dir { tmp = none })
              else (true, record { db = tmp; tmp = none }))
      go false r = (λ x. refl, λ x. cc, λ x. cc)
      go true false = (λ x. refl, λ x. cc, λ x. cc)
      go true true = (λ x. cc, λ x. e, λ x. refl)

  rewritten :
      (index : RowIndex) (path_len : ℕ)
      → Rewrites index (rewrite p calls now path_len index.slots dir)
  rewritten index path_len = go (leb path_max (path_len + 4)) calls.open_ok calls.fdopen_ok
    where
      go :
          (long opens fdopens : Bool)
          → Rewrites index (
              if long
              then (false, dir)
              else if not opens
              then (false, dir)
              else if not fdopens
              then (false, record dir { tmp = none })
              else publish calls (write_live p calls.io now index.slots []) dir)
      go true o f = (λ x. refl, λ x. cc, λ x. cc)
      go false false f = (λ x. refl, λ x. cc, λ x. cc)
      go false true false = (λ x. refl, λ x. cc, λ x. cc)
      go false true true = published index (write_live p calls.io now index.slots []) refl

  -- `db_rewrite_compact` always returns. If it fails the database file is what it was, at whatever
  -- call it failed; if it succeeds the file is exactly what writing the live rows of the loaded index
  -- produced, and no temporary file is left.
  pub db_rewrite_compact-Replaces :
      (path_len : ℕ) (error : Bool)
      → IsReadable p (lines_of dir.db)
      → Replaces p calls now error dir (db_rewrite_compact p calls now path_len error dir)
  unfolding db_rewrite_compact view
  db_rewrite_compact-Replaces path_len error h =
      let l =
        load_latest_rows-Loads p (record { text = dir.db; error = error }) zero_index h
          (inl refl) in
      elim (Bool-cases l.done) [
        | inr bad ↦ record {
          done = false;
          after = dir;
          index = zero_index;
          returns = rw (l.returns, bad) refl;
          unchanged = λ x. refl;
          loads = λ x. cc;
          formed = inl refl;
          views = λ x. cc;
          wrote = λ x. cc;
          cleared = λ x. cc;
        }
        | inl ok ↦
            let (same, wrote, gone) = rewritten l.after path_len in
            record {
              done = (rewrite p calls now path_len l.after.slots dir).0;
              after = (rewrite p calls now path_len l.after.slots dir).1;
              index = l.after;
              returns = rw (l.returns, ok) refl;
              unchanged = same;
              loads = λ x. l.returns ∙ ap (λ (d : Bool). some (loaded d l.after)) ok;
              formed = l.index;
              views = λ x. l.views ok;
              wrote = wrote;
              cleared = gone;
            }
      ]
