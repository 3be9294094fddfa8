-- ===== src/StreamMerge/Drain/Feed.antt =====
-- What `drain_meta` of applets/stream_merge/stream_merge.c does, by the lines of the text that it has
-- read: what remains in the buffer is the unfinished line.
use stream_data_pipline.Prelude.{
  ℕ, ◌+◌, ◌<◌, ◌≡◌, refl, sym, Bool, true, false, List, [], ◌∷◌, ◌++◌, arith, length, length-append,
  append_assoc, append-nil,
}
use stream_data_pipline.Prelude.Bytes.{Bytes}
use mathlib.Core.Path.{subst}
use stream_data_pipline.Buffer.{Buffer, Status, ok, einval, eio, eoverflow, enomem, size_max}
use stream_data_pipline.Buffer.Steps.{Holds, Adds, append_mem-Adds}
use stream_data_pipline.Watch.{Answer, got, interrupted, again, failed}
use stream_data_pipline.StreamMerge.Output.{Env}
use stream_data_pipline.StreamMerge.Drain.{read_meta, read_next}

-- What the answers of `read` give until the reading stops, and whether it stops without an error.
unfoldable pub read_text : List Answer → Bytes
read_text [] = []
read_text (got [] ∷ answers) = []
read_text (got (x ∷ chunk) ∷ answers) = (x ∷ chunk) ++ read_text answers
read_text (interrupted ∷ answers) = read_text answers
read_text (again ∷ answers) = []
read_text (failed ∷ answers) = []

unfoldable pub reads_well : List Answer → Bool
reads_well [] = true
reads_well (got [] ∷ answers) = true
reads_well (got (x ∷ chunk) ∷ answers) = reads_well answers
reads_well (interrupted ∷ answers) = reads_well answers
reads_well (again ∷ answers) = true
reads_well (failed ∷ answers) = false

-- Reading into a buffer that holds `bs` succeeds only with all of the text behind them; with memory
-- for everything it succeeds exactly if `read` does.
pub record Reads (all : Type 0) (bs : Bytes) (answers : List Answer) (r : Bool × Buffer)
    : Type 0 where
  pub holds : r.0 ≡ true → Holds (bs ++ read_text answers) r.1
  pub well : all → r.0 ≡ reads_well answers

module _ {I D : Type 0} (e : Env I D) where
  abbrev pub Grants : Type 0
  Grants = (n : ℕ) → e.alloc.grants n ≡ true

  stopped : (bs : Bytes) (b : Buffer) → Holds bs b → Holds (bs ++ []) b
  stopped bs b h = subst (λ (t : Bytes). Holds t b) (sym (append-nil bs)) h

  next-Reads :
      (bs chunk : Bytes) (answers : List Answer) (r : Status × Buffer)
      → Adds e.alloc bs chunk r
      → ((b : Buffer)
          → Holds (bs ++ chunk) b
          → Reads Grants (bs ++ chunk) answers (read_meta e answers b))
      → let q = read_next r (read_meta e answers) in
        (q.0 ≡ true → Holds (bs ++ (chunk ++ read_text answers)) q.1)
        × (Grants → q.0 ≡ reads_well answers)
  next-Reads bs chunk answers (ok, b) a go =
      let n = go b (a.adds refl) in
      (
        λ h.
            subst (λ (t : Bytes). Holds t (read_meta e answers b).1)
              (append_assoc bs chunk (read_text answers)) (n.holds h),
        n.well,
      )
  next-Reads bs chunk answers (einval, b) a go = (λ h. cc, λ all. let x = a.granted all in cc)
  next-Reads bs chunk answers (eio, b) a go = (λ h. cc, λ all. let x = a.granted all in cc)
  next-Reads bs chunk answers (eoverflow, b) a go = (λ h. cc, λ all. let x = a.granted all in cc)
  next-Reads bs chunk answers (enomem, b) a go = (λ h. cc, λ all. let x = a.granted all in cc)

  pub read_meta-Reads :
      (answers : List Answer) (bs : Bytes) (b : Buffer)
      → Holds bs b
      → length bs + length (read_text answers) < size_max
      → Reads Grants bs answers (read_meta e answers b)
  unfolding read_meta read_text reads_well
  read_meta-Reads [] bs b h fits = record { holds = λ _. stopped bs b h; well = λ _. refl }
  read_meta-Reads (got [] ∷ answers) bs b h fits = record {
    holds = λ _. stopped bs b h;
    well = λ _. refl;
  }
  read_meta-Reads (got (x ∷ chunk) ∷ answers) bs b h fits =
      let l = length-append (x ∷ chunk) (read_text answers) in
      let l' = length-append bs (x ∷ chunk) in
      let (holds, well) =
        next-Reads bs (x ∷ chunk) answers _
          (append_mem-Adds e.alloc (x ∷ chunk) bs b h (omega (arith, l)))
          (λ b1 h1. read_meta-Reads answers (bs ++ x ∷ chunk) b1 h1 (omega (arith, l, l'))) in
      record { holds = holds; well = well }
  read_meta-Reads (interrupted ∷ answers) bs b h fits =
      let r = read_meta-Reads answers bs b h fits in record { holds = r.holds; well = r.well }
  read_meta-Reads (again ∷ answers) bs b h fits = record {
    holds = λ _. stopped bs b h;
    well = λ _. refl;
  }
  read_meta-Reads (failed ∷ answers) bs b h fits = record { holds = λ h. cc; well = λ _. refl }
