-- ===== src/Paths/Laws.antt =====
-- Paths that are built and taken apart again, and the two ways to start an applet (lib/libpipeline.c
-- and applets/main.c).
use stream_data_pipline.Prelude.{
  ℕ, ◌+◌, ◌^◌, ◌<◌, ◌≡◌, refl, ap, false, none, some, List, [], ◌∷◌, ◌++◌, arith, ltb,
  if◌then◌else◌, length, length-append,
}
use stream_data_pipline.Prelude.Bytes.{Bytes, codes, contains, str_eq}
use stream_data_pipline.Paths.{
  slash, behind_slash, base_name, or_whole, pipeline_sentinel_name, lp_is_completed_session,
  lp_build_artifact_path, choose, is_box, main,
}

behind_slash-none : (s : Bytes) → contains slash s ≡ false → behind_slash s ≡ none
unfolding behind_slash contains
behind_slash-none [] h = refl
behind_slash-none (c ∷ s) h = ground (arith, behind_slash-none s)

behind_slash-join :
    (dir name : Bytes)
    → contains slash name ≡ false
    → behind_slash (dir ++ slash ∷ name) ≡ some name
unfolding behind_slash
behind_slash-join [] name h = rw (behind_slash-none name h) refl
behind_slash-join (c ∷ dir) name h = rw (behind_slash-join dir name h) refl

base_name-join :
    (dir name : Bytes) → contains slash name ≡ false → base_name (dir ++ slash ∷ name) ≡ name
base_name-join dir name h = ap (or_whole (dir ++ slash ∷ name)) (behind_slash-join dir name h)

-- The path of an artifact fits its buffer or is refused, and if it fits it marks a completed session
-- exactly if the artifact has the name of the sentinel, whatever directory it stands in.
pub lp_build_artifact_path-completed :
    (sz : ℕ) (dir name : Bytes)
    → contains slash name ≡ false
    → sz < 2 ^ 31
    → (lp_build_artifact_path sz dir name
        ≡ (if ltb (length dir + length name + 1) sz then some (dir ++ slash ∷ name) else none))
      × (lp_is_completed_session (some (dir ++ slash ∷ name)) ≡ str_eq name pipeline_sentinel_name)
unfolding lp_build_artifact_path lp_is_completed_session
lp_build_artifact_path-completed sz dir name h small = (
  ground (arith, length-append dir (slash ∷ name)),
  ap (λ (t : Bytes). str_eq t pipeline_sentinel_name) (base_name-join dir name h),
)

choose_at :
    (dir name : Bytes) (rest : List Bytes)
    → contains slash name ≡ false
    → is_box name ≡ false
    → main ((dir ++ slash ∷ name) ∷ rest) ≡ choose name ((dir ++ slash ∷ name) ∷ rest)
unfolding main
choose_at dir name [] h other = rw (base_name-join dir name h, other) refl
choose_at dir name (x ∷ rest) h other = rw (base_name-join dir name h, other) refl

-- An applet is chosen by its name alone: by the last part of argument 0, whatever directory stands in
-- front of it, and in the same way by the first argument of `box`.
pub main-choose :
    (dir name : Bytes) (rest : List Bytes)
    → contains slash name ≡ false
    → is_box name ≡ false
    → (main ((dir ++ slash ∷ name) ∷ rest) ≡ choose name ((dir ++ slash ∷ name) ∷ rest))
      × (main (codes "box" ∷ name ∷ rest) ≡ choose name (name ∷ rest))
unfolding main behind_slash str_eq
main-choose dir name rest h other = (choose_at dir name rest h other, refl)
