-- ===== src/ClipStore/Main/Clips.antt =====
-- The default mode of applets/clip_store/clip_store.c against what a clip is: a line of JSON with the
-- three fields.
use stream_data_pipline.Prelude.{
  ℕ, suc, ◌<◌, ◌≡◌, ◌↔◌, ◌⊎◌, refl, false, Option, none, some, List, [], ◌∷◌, length,
}
use stream_data_pipline.Prelude.Bytes.{Bytes, codes, is_empty}
use stream_data_pipline.Prelude.Int.{ℤ}
use stream_data_pipline.Watch.{c_string}
use stream_data_pipline.Json.{text, field}
use stream_data_pipline.Json.Numbers.{IsIeee}
use stream_data_pipline.Json.Laws.{IsInteger, get_int64-IsInteger, get_string_iff}
use stream_data_pipline.ClipStore.Row.{Row}
use stream_data_pipline.ClipStore.Load.{Platform}
use stream_data_pipline.ClipStore.Compact.Written.{IsKept}
use stream_data_pipline.ClipStore.Main.{Host, clip_of, fields}
use stream_data_pipline.ClipStore.Main.Piped.{clip_row}

module _ {I D : Type 0} (p : Platform) (host : Host I D) where
  -- The line is an object with these three fields, and the texts fit.
  pub record IsClip (line session : Bytes) (ts : ℤ) (path : Bytes) : Type 0 where
    pub names : field host.cjson (c_string line) (codes "session_id") ≡ text (some session)
    pub names_fit : length session < 128
    pub begins : IsInteger host.double (field host.cjson (c_string line) (codes "ts")) ts
    pub stands : field host.cjson (c_string line) (codes "path") ≡ text (some path)
    pub stands_fit : length path < 4096

  abbrev pub IsNoClip : Bytes → Type 0
  IsNoClip line = (session : Bytes) (ts : ℤ) (path : Bytes) → IsClip line session ts path → ⊥

  fields-some :
      (a : Option Bytes) (b : Option ℤ) (c : Option Bytes) (session path : Bytes) (ts : ℤ)
      → fields p host a b c ≡ some (session, ts, path)
      → (a ≡ some session) × (b ≡ some ts) × (c ≡ some path)
  fields-some none b c session path ts h = cc
  fields-some (some a) none c session path ts h = cc
  fields-some (some a) (some b) none session path ts h = cc
  fields-some (some a) (some b) (some c) session path ts h = (cc, cc, cc)

  module _ (ieee : IsIeee host.double) where
    pub clip_of_iff :
        (line session : Bytes) (ts : ℤ) (path : Bytes)
        → (clip_of p host line ≡ some (session, ts, path)) ↔ IsClip line session ts path
    unfolding clip_of
    clip_of_iff line session ts path =
        let c = host.cjson in
        let t = c_string line in
        let a = get_string_iff c t (codes "session_id") 128 session in
        let b = (get_int64-IsInteger c host.double ieee t (codes "ts")).0 ts in
        let q = get_string_iff c t (codes "path") 4096 path in
        (
          λ h.
              let (ea, eb, eq) = fields-some _ _ _ session path ts h in
              record {
                names = (a.0 ea).0;
                names_fit = (a.0 ea).1;
                begins = b.0 eb;
                stands = (q.0 eq).0;
                stands_fit = (q.0 eq).1;
              },
          λ k. rw (a.1 (k.names, k.names_fit), b.1 k.begins, q.1 (k.stands, k.stands_fit)) refl,
        )

    module _ (life : ℤ) where
      -- The rows of the clips on the lines, one for each in their order, when the clock was read
      -- `times` times before; the other lines have none.
      abbrev pub AreRows : List Bytes → ℕ → List Row → Type 0
      AreRows [] times rows = rows ≡ []
      AreRows (line ∷ lines) times rows =
          ((session : Bytes) × (ts : ℤ) × (path : Bytes) × IsClip line session ts path
            × (rest : List Row) × (rows ≡ clip_row p host life session ts path times ∷ rest)
            × AreRows lines (suc times) rest)
          ⊎ (IsNoClip line × AreRows lines times rows)

      -- Every clip on the lines has a path, and can be written and read back.
      abbrev pub AreKeepable : List Bytes → Type 0
      AreKeepable [] = Unit
      AreKeepable (line ∷ lines) =
          ((session : Bytes) (ts : ℤ) (path : Bytes)
            → IsClip line session ts path
            → (is_empty path ≡ false)
              × ((times : ℕ) → IsKept p (clip_row p host life session ts path times)))
          × AreKeepable lines
