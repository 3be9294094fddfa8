-- ===== src/ClipStore/Index/Refine.antt =====
-- The hash index of db_query.c against the map that it implements: putting a row overwrites the row
-- of its key, and getting reads it back.
use mathlib.Core.Path.{subst}
use stream_data_pipline.Prelude.{
  set, ◌+◌, ◌≡◌, refl, sym, ◌∙◌, Bool, true, false, Option, some, [], arith, inl, inr, Bool-cases,
  if◌then◌else◌,
}
use stream_data_pipline.Prelude.Bytes.{Bytes, str_eq}
use stream_data_pipline.ClipStore.Row.{Row}
use stream_data_pipline.ClipStore.Index.{
  RowIndex, Memory, find_slot, grow, put, get, copies, fill, zero_index,
}
use stream_data_pipline.ClipStore.Index.Probe.{Finds, home}
use stream_data_pipline.ClipStore.Index.Insert.{view, IsPlaced}
use stream_data_pipline.ClipStore.Index.Placed.{
  find-Finds, find-view, view-stored, fill-IsPlaced, replace-IsPlaced,
}
use stream_data_pipline.ClipStore.Index.Rehash.{IsTable}
use stream_data_pipline.ClipStore.Index.Grow.{IsIndex, Grows, grow-Grows}

-- `row_index_get` on a well-formed index always returns, and what it returns is the row of the key.
pub get-view : (t : RowIndex) (key : Bytes) → IsIndex t → get t key ≡ some (view t.slots key)
unfolding get view
get-view t key (inl z) =
    subst (λ (x : RowIndex). get x key ≡ some (view x.slots key)) (sym z) zero_case
  where
    zero_case : get zero_index key ≡ some (view [] key)
    zero_case = refl
get-view t key (inr it) =
    let f = find-Finds t key it.places (omega arith) in
    rw (find-view t key it.places f) (ground (arith, f.returns))

-- What putting a row leaves.
pub record Puts (t : RowIndex) (row : Row) (result : Option (Bool × RowIndex)) : Type 0 where
  pub done : Bool
  pub after : RowIndex
  pub returns : result ≡ some (done, after)
  pub index : IsIndex after
  pub stores :
      done ≡ true
      → (key : Bytes)
      → view after.slots key ≡ (if str_eq row.key key then some row else view t.slots key)
  pub keeps : done ≡ false → (key : Bytes) → view after.slots key ≡ view t.slots key

module _ (m : Memory) (t : RowIndex) (row : Row) (it : IsIndex t)
    (g : Grows t (t.len + 1) (grow m t (t.len + 1))) where
  stuck : g.ok ≡ false → Puts t row (put m t row)
  unfolding put
  stuck e = record {
    done = false;
    after = g.after;
    returns = rw (g.returns, put, e);
    index = rw (g.refused e) it;
    stores = λ x. cc;
    keeps = λ x. g.same;
  }

  put_grown :
      (ok : g.ok ≡ true)
      → (f : Finds g.after.slots g.after.cap row.key
          (home row.key g.after.cap)
          (find_slot g.after row.key))
      → Puts t row (put m t row)
  unfolding put
  put_grown ok f = elim (Bool-cases (copies m row)) [
    | inr refused ↦ record {
      done = false;
      after = g.after;
      returns = rw (g.returns, put, ok, f.returns, refused);
      index = inr (g.table ok);
      stores = λ x. cc;
      keeps = λ x. g.same;
    }
    | inl copied ↦ elim (Bool-cases f.found) [
      | inl hit ↦ record {
        done = true;
        after = record g.after { slots = set g.after.slots f.slot (some row) };
        returns = rw (g.returns, put, ok, f.returns, copied, hit);
        index = inr (record {
          places = replace-IsPlaced g.after row p f hit;
          large = it'.large;
          load = it'.load;
          small = it'.small;
        });
        stores = λ x key. view-stored g.after row p f key ∙ as_before key;
        keeps = λ x. cc;
      }
      | inr miss ↦ record {
        done = true;
        after = fill g.after f.slot row;
        returns = rw (g.returns, put, ok, f.returns, copied, miss);
        index = inr (record {
          places = fill-IsPlaced g.after row p f miss;
          large = it'.large;
          load = omega (arith, g.room ok, g.same_len);
          small = it'.small;
        });
        stores = λ x key. view-stored g.after row p f key ∙ as_before key;
        keeps = λ x. cc;
      }
    ]
  ]
    where
      it' : IsTable g.after
      it' = g.table ok

      p : IsPlaced g.after
      p = it'.places

      as_before :
          (key : Bytes)
          → (if str_eq row.key key then some row else view g.after.slots key)
            ≡ (if str_eq row.key key then some row else view t.slots key)
      as_before key = rw (g.same key)

-- Putting a row in a well-formed index always returns. If it reports success the row is the one of
-- its key and no other key has changed; if memory ran out no key has changed; the index stays well
-- formed either way.
pub put-Puts : (m : Memory) (t : RowIndex) (row : Row) → IsIndex t → Puts t row (put m t row)
put-Puts m t row it =
    let g = grow-Grows m t it in
    elim (Bool-cases g.ok) [
      | inl ok ↦
          put_grown m t row it g ok
            (find-Finds g.after row.key (g.table ok).places (omega (arith, (g.table ok).load)))
      | inr refused ↦ stuck m t row it g refused
    ]
