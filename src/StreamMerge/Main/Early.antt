-- ===== src/StreamMerge/Main/Early.antt =====
-- How the waiting of applets/stream_merge/stream_merge.c for the metadata file ends.
use stream_data_pipline.Prelude.{
  ◌+◌, ◌<◌, ◌≡◌, refl, ap, ◌∙◌, Bool, true, false, not, ◌∷◌, ◌++◌, take_all, arith, length,
  length-append, if◌then◌else◌,
}
use stream_data_pipline.Prelude.Bytes.{Bytes, codes}
use stream_data_pipline.Paths.{lp_build_artifact_path, slash}
use stream_data_pipline.StreamMerge.Output.{Env, path_max}
use stream_data_pipline.StreamMerge.Output.Lines.{IsShort}
use stream_data_pipline.StreamMerge.Loop.{merge, sentinel_exists}
use stream_data_pipline.StreamMerge.Main.{
  opened, System, paths_fail, cut_name, is_none, watch_session, behind_open,
}

if_false : {A : Type 0} (x : A) {y : A} {b : Bool} → b ≡ false → (if b then x else y) ≡ y
if_false x e = rw e refl

past_guard : {A : Type 0} (x : A) {y : A} {b : Bool} → b ≡ true → (if not b then x else y) ≡ y
past_guard x e = rw e refl

module _ {I D : Type 0} (e : Env I D) (sys : System) where
  artifact_fits :
      (name : Bytes)
      → length e.src + length name + 1 < path_max
      → is_none (lp_build_artifact_path path_max e.src (cut_name name)) ≡ false
  unfolding lp_build_artifact_path
  artifact_fits name fits =
      rw (take_all 4095 name (omega arith)) (ground (arith, length-append e.src (slash ∷ name)))

  paths_fit : IsShort e → paths_fail e sys ≡ false
  paths_fit short =
      let l = length-append e.session (codes ".bin") in
      let l' = length-append e.session (codes ".meta.jsonl") in
      rw
        (
          paths_fail,
          artifact_fits (e.session ++ codes ".bin") (omega (arith, l)),
          artifact_fits (e.session ++ codes ".meta.jsonl") (omega (arith, l')),
        )
        refl

  -- When the metadata file is there at once, the program works on it.
  pub watch_session-merge :
      IsShort e
      → sys.bin_opens ≡ true
      → sys.dir_watched ≡ true
      → sys.meta_opens ≡ opened
      → sys.file_watched ≡ true
      → watch_session e sys
        ≡ merge e sys.first sys.turns sys.last 0 (sentinel_exists e sys.sentinel_there)
  unfolding watch_session
  watch_session-merge short bin dir there watched =
      if_false _ (paths_fit short)
      ∙ past_guard _ bin
      ∙ past_guard _ dir
      ∙ ap (behind_open e sys (sentinel_exists e sys.sentinel_there)) there
      ∙ rw watched refl
