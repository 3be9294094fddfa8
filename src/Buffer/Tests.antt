-- ===== src/Buffer/Tests.antt =====
-- Runs of the buffer on small inputs, and its theorems at them.
use stream_data_pipline.Prelude.{
  ◌^◌, ◌-◌, ◌≡◌, refl, true, false, some, [], ◌∷◌, arith, replicate, length-replicate,
}
use stream_data_pipline.Prelude.Bytes.{codes}
use stream_data_pipline.Buffer.{
  ok, enomem, Allocator, empty, reset, fail, realloc, grow, resize, reserve, append_char,
  append_mem, append_str,
}
use stream_data_pipline.Buffer.Laws as BufferLaws
use stream_data_pipline.Buffer.Append as BufferAppend

-- Memory that grants every request, with blocks full of 0xAA.
abbrev plenty : Allocator
plenty = record {
  grants = λ n. true;
  fresh = λ n. replicate n 0xaa;
  length-fresh = λ n. length-replicate n 0xaa;
}

abbrev exhausted : Allocator
exhausted = record {
  grants = λ n. false;
  fresh = λ n. replicate n 0xaa;
  length-fresh = λ n. length-replicate n 0xaa;
}

appends_text :
    BufferLaws.contents
      (append_char plenty (append_str plenty empty (some (codes "clip"))).1 b'!').1
    ≡ codes "clip!"
unfolding append_char append_str append_mem reserve resize grow realloc
appends_text = refl

starts_at_128 : (append_str plenty empty (some (codes "clip"))).1.cap ≡ 128
unfolding append_str append_mem reserve resize grow realloc
starts_at_128 = refl

no_memory : append_char exhausted empty b'!' ≡ (enomem, fail empty)
unfolding append_char reserve resize grow realloc
no_memory = refl

doubles : grow 64 128 1000 ≡ some 1024
unfolding grow
doubles = refl

near_the_end : grow 64 (2 ^ 63) (2 ^ 64 - 1) ≡ some (2 ^ 64 - 1)
unfolding grow
near_the_end = refl

reserve-Reserves_example : BufferLaws.Reserves empty 10 (reserve plenty empty 10)
reserve-Reserves_example =
    BufferLaws.reserve-Reserves plenty empty 10 BufferLaws.empty-IsValid refl (omega arith)

reserve_total_example : (reserve plenty empty 10).0 ≡ ok
reserve_total_example =
    BufferLaws.reserve_total plenty empty 10 (λ n. refl) BufferLaws.empty-IsValid refl (omega arith)

append_mem-Appends_example :
    BufferAppend.Appends empty (1 ∷ 0 ∷ 2 ∷ []) (append_mem plenty empty (some (1 ∷ 0 ∷ 2 ∷ [])) 3)
append_mem-Appends_example =
    BufferAppend.append_mem-Appends plenty empty (1 ∷ 0 ∷ 2 ∷ []) BufferLaws.empty-IsValid refl
      (omega arith)

reset_lem_example :
    BufferLaws.IsValid (reset (fail empty))
    × (BufferLaws.contents (reset (fail empty)) ≡ [])
    × ((reset (fail empty)).failed ≡ false)
    × ((reset (fail empty)).cap ≡ 0)
reset_lem_example =
    BufferLaws.reset_lem {b = fail empty} (BufferLaws.fail-IsValid BufferLaws.empty-IsValid)
