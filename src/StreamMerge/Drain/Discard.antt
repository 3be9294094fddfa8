-- ===== src/StreamMerge/Drain/Discard.antt =====
-- What is in the buffer of `drain_meta` (applets/stream_merge/stream_merge.c) when a line has been
-- moved out of it.
use stream_data_pipline.Prelude.{
  ℕ, zero, suc, ◌-◌, ◌≤◌, ◌<◌, ◌≡◌, refl, sym, ap, ◌∙◌, Bool, true, false, Option, none, some, [],
  ◌∷◌, arith, length, take, drop, length-take, length-drop, length-set, take-set_ge,
  get_elem?-set_self,
}
use stream_data_pipline.Prelude.Bytes.{Bytes}
use stream_data_pipline.Buffer.{Buffer, copy_at, is_null, size_max}
use stream_data_pipline.Buffer.Append.{length-copy_at, take-copy_at}
use stream_data_pipline.Buffer.Steps.{Holds}
use stream_data_pipline.StreamMerge.Drain.{discard}

take-nil : (k : ℕ) → take {A = ℕ} k [] ≡ []
take-nil zero = refl
take-nil (suc k) = refl

drop-take : (n l : ℕ) (xs : Bytes) → drop n (take l xs) ≡ take (l - n) (drop n xs)
drop-take zero l xs = ap (λ k. take k xs) {x = l} {y = l - 0} (omega arith)
drop-take (suc n) zero [] = sym (take-nil (0 - suc n))
drop-take (suc n) zero (x ∷ xs) = ap (λ k. take k (drop n xs)) {x = 0} {y = 0 - suc n} (omega arith)
drop-take (suc n) (suc l) [] = sym (take-nil (suc l - suc n))
drop-take (suc n) (suc l) (x ∷ xs) =
    drop-take n l xs ∙ ap (λ k. take k (drop n xs)) {x = l - n} {y = suc l - suc n} (omega arith)

discard_block :
    (d bs : Bytes) (len cap n : ℕ) (failed : Bool)
    → length d ≡ cap
    → cap ≤ size_max
    → len < cap
    → take len d ≡ bs
    → n ≤ len
    → failed ≡ false
    → let b : Buffer = record { block = some d; len = len; cap = cap; failed = failed } in
      Holds (drop n bs) (discard b n)
unfolding discard
discard_block d bs len cap n failed size small room e le live =
    let rest = len - n in
    let t = take rest (drop n d) in
    let d' = copy_at d 0 t in
    let l : length t ≡ rest = omega (arith, length-take rest (drop n d), length-drop n d) in
    let size' = length-copy_at d 0 t in
    let bytes : t ≡ drop n bs = sym (drop-take n len d) ∙ ap (drop n) e in
    record {
      valid = record {
        sized = length-set d' rest 0 ∙ size' ∙ size;
        small = small;
        null_len = λ h. cc;
        terminated = λ h. (omega arith, get_elem?-set_self d' rest 0 (omega arith));
      };
      live = live;
      bytes =
          take-set_ge rest d' rest 0 (omega arith)
          ∙ take-copy_at d 0 rest t (omega arith) (omega arith)
          ∙ bytes;
      long = omega (arith, ap (λ (s : Bytes). length s) bytes);
    }

is_false : (q : Bool) → (q ≡ true → ⊥) → q ≡ false
is_false true f = absurd (f refl)
is_false false f = refl

discard_parts :
    (o : Option Bytes) (bs : Bytes) (len cap n : ℕ) (failed : Bool)
    → let b : Buffer = record { block = o; len = len; cap = cap; failed = failed } in
      Holds bs b → is_null o ≡ false → n ≤ length bs → Holds (drop n bs) (discard b n)
discard_parts none bs len cap n failed h e le = cc
discard_parts (some d) bs len cap n failed h e le =
    discard_block d bs len cap n failed h.valid.sized h.valid.small (h.valid.terminated refl).0
      h.bytes (omega (arith, h.long)) h.live

-- The first bytes are moved out, and the rest is what the buffer holds.
pub discard-Holds :
    (bs : Bytes) (b : Buffer) (n : ℕ)
    → Holds bs b
    → 0 < n
    → n ≤ length bs
    → Holds (drop n bs) (discard b n)
discard-Holds bs b n h one le =
    discard_parts b.block bs b.len b.cap n b.failed h
      (is_false (is_null b.block) (λ e. omega (arith, h.valid.null_len e, h.long))) le
