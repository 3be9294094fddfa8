-- ===== src/Json/Scalars.antt =====
-- What `jsonl_get_scalar_text` of lib/jsonl_codec.c gives: a string as it is, and any other scalar as
-- cJSON prints it.
use stream_data_pipline.Prelude.{◌<◌, ◌≡◌, ◌↔◌, refl, ap, ◌∙◌, Option, none, some, arith, length}
use stream_data_pipline.Prelude.Bytes.{Bytes}
use stream_data_pipline.Json.{
  Cjson, View, null, array, object, boolean, number, text, parse_object, get_item, copied,
  scalar_of, scalar_text, get_scalar_text,
}

module _ {I D : Type 0} (c : Cjson I D) where
  -- The text of a scalar: that of a string, or else what cJSON prints.
  abbrev pub IsScalar : View D → I → Bytes → Type 0
  IsScalar (text s) item v = s ≡ some v
  IsScalar null item v = c.print item ≡ some v
  IsScalar (boolean b) item v = c.print item ≡ some v
  IsScalar (number x) item v = c.print item ≡ some v
  IsScalar object item v = ⊥
  IsScalar array item v = ⊥

  -- The line is an object with a scalar of this text, of less than 1024 bytes, under the key.
  pub record HasScalar (line key v : Bytes) : Type 0 where
    pub root : I
    pub item : I
    pub parses : parse_object c line ≡ some root
    pub stands : c.member root key ≡ some item
    pub is : IsScalar (c.view item) item v
    pub fits : length v < 1024

  copied_iff :
      (s : Option Bytes) (v : Bytes) → (copied 1024 s ≡ some v) ↔ ((s ≡ some v) × (length v < 1024))
  copied_iff none v = (λ h. cc, λ h. cc (h.0))
  copied_iff (some s) v = (λ h. ground arith, λ h. ground arith)

  scalar_of_iff :
      (item : I) (w : View D) (v : Bytes)
      → (scalar_of c 1024 item w ≡ some v) ↔ (IsScalar w item v × (length v < 1024))
  scalar_of_iff item object v = (λ h. cc, λ h. absurd h.0)
  scalar_of_iff item array v = (λ h. cc, λ h. absurd h.0)
  scalar_of_iff item (text s) v = copied_iff s v
  scalar_of_iff item null v = copied_iff (c.print item) v
  scalar_of_iff item (boolean b) v = copied_iff (c.print item) v
  scalar_of_iff item (number x) v = copied_iff (c.print item) v

  item_scalar :
      (line key v : Bytes) (root : I) (m : Option I)
      → parse_object c line ≡ some root
      → c.member root key ≡ m
      → scalar_text c 1024 m ≡ some v
      → HasScalar line key v
  item_scalar line key v root none e k h = cc
  item_scalar line key v root (some item) e k h =
      let (is, fits) = (scalar_of_iff item (c.view item) v).0 h in
      record { root = root; item = item; parses = e; stands = k; is = is; fits = fits }

  root_scalar :
      (line key v : Bytes) (o : Option I)
      → parse_object c line ≡ o
      → scalar_text c 1024 (get_item c o key) ≡ some v
      → HasScalar line key v
  root_scalar line key v none e h = cc
  root_scalar line key v (some root) e h = item_scalar line key v root (c.member root key) e refl h

  pub get_scalar_text_iff :
      (line key v : Bytes) → (get_scalar_text c line key 1024 ≡ some v) ↔ HasScalar line key v
  unfolding get_scalar_text
  get_scalar_text_iff line key v = (
    root_scalar line key v (parse_object c line) refl,
    λ s.
        ap (λ o. scalar_text c 1024 (get_item c o key)) s.parses
        ∙ ap (scalar_text c 1024) s.stands
        ∙ (scalar_of_iff s.item (c.view s.item) v).1 (s.is, s.fits),
  )
