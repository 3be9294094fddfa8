-- ===== src/ClipStore/Tests.antt =====
-- Runs of the clip database on small inputs, and its theorems at them.
use stream_data_pipline.Prelude.{◌*◌, refl, true, inl, leb, leb→le}
use stream_data_pipline.Prelude.Bytes.{codes}
use stream_data_pipline.Prelude.Int.{pos}
use stream_data_pipline.ClipStore.Row.{Row}
use stream_data_pipline.ClipStore.Index.{Memory, zero_index, size_max, put}
use stream_data_pipline.ClipStore.Index.Refine as IndexRefine

-- Memory that grants whatever has a size.
abbrev plenty : Memory
plenty = record {
  calloc_ok = λ n. leb (n * 32) size_max;
  calloc_bound = λ n e. leb→le (n * 32) size_max e;
  strdup_ok = λ s. true;
}

abbrev clip_row : Row
clip_row = record { key = codes "s1:7"; value = codes "up"; expire_at = pos 0 }

put-Puts_example : IndexRefine.Puts zero_index clip_row (put plenty zero_index clip_row)
put-Puts_example = IndexRefine.put-Puts plenty zero_index clip_row (inl refl)
