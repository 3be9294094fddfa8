-- ===== src/Buffer/Laws.antt =====
-- The append-only invariant of lib/dynamic_buffer.c, and `dynamic_buffer_reserve`.
use stream_data_pipline.Prelude.{
  ℕ, ◌+◌, ◌-◌, ◌≤◌, ◌<◌, ◌≡◌, ◌≢◌, inl, inr, refl, ◌∙◌, Bool, true, false, some, none, Option, [],
  ◌++◌, arith, leb, ◌==◌, Bool-cases, if◌then◌else◌, length, take, get_elem?, length-set,
  get_elem?-set_self, length-take, length-append, take-append_le, take-take_le, take-set_ge,
  length-take,
}
use stream_data_pipline.Prelude.Bytes.{Bytes}
use stream_data_pipline.Buffer.{
  Buffer, Status, ok, eio, eoverflow, enomem, Allocator, size_max, old_bytes, is_null, empty, reset,
  fail, grow, resize, reserve,
}
use stream_data_pipline.Buffer.Grow.{grow-Grown}

-- The bytes that the caller has put in: `data[0..len)`.
abbrev pub contents : Buffer → Bytes
contents b = take b.len (old_bytes b.block)

-- The block has `cap` bytes, `data[0..len)` lies inside it, and `data[len]` is NUL. Without a block
-- the buffer is empty.
pub record IsValid (b : Buffer) : Type 0 where
  pub sized : length (old_bytes b.block) ≡ b.cap
  pub small : b.cap ≤ size_max
  pub null_len : is_null b.block ≡ true → (b.len ≡ 0) × (b.cap ≡ 0)
  pub terminated :
      is_null b.block ≡ false → (b.len < b.cap) × (get_elem? (old_bytes b.block) b.len ≡ some 0)

pub len-le-cap : {b : Buffer} → IsValid b → b.len ≤ b.cap
len-le-cap {b} v = elim (Bool-cases (is_null b.block)) [
  | inl n ↦ omega (arith, v.null_len n)
  | inr s ↦ omega (arith, v.terminated s)
]

pub empty-IsValid : IsValid empty
empty-IsValid = record {
  sized = refl;
  small = omega arith;
  null_len = λ e. (refl, refl);
  terminated = λ e. cc;
}

pub fail-IsValid : {b : Buffer} → IsValid b → IsValid (fail b)
fail-IsValid v = record {
  sized = v.sized;
  small = v.small;
  null_len = v.null_len;
  terminated = v.terminated;
}

-- What reserving room for `extra` bytes leaves, whatever it returns.
pub record Reserves (b : Buffer) (extra : ℕ) (r : Status × Buffer) : Type 0 where
  pub valid : IsValid r.1
  pub same_len : r.1.len ≡ b.len
  pub same : contents r.1 ≡ contents b
  pub room :
      r.0 ≡ ok → (r.1.failed ≡ b.failed) × (is_null r.1.block ≡ false) × (b.len + extra < r.1.cap)
  pub latched : r.0 ≢ ok → r.1.failed ≡ true

refusal : (b : Buffer) (extra : ℕ) (e : Status) → IsValid b → e ≢ ok → Reserves b extra (e, fail b)
refusal b extra e v ne = record {
  valid = fail-IsValid v;
  same_len = refl;
  same = refl;
  room = λ h. absurd (ne h);
  latched = λ h. refl;
}

-- The capacity that the growth loop starts from.
abbrev start_cap : Buffer → ℕ
start_cap b = if b.cap == 0 then 128 else b.cap

start_cap_bounds :
    (b : Buffer)
    → b.cap ≤ size_max
    → (0 < start_cap b) × (b.cap ≤ start_cap b) × (start_cap b ≤ size_max)
start_cap_bounds b h = ground arith

not_null :
    (b : Buffer) (extra : ℕ)
    → IsValid b
    → leb (b.len + extra + 1) b.cap ≡ true
    → is_null b.block ≡ false
not_null b extra v h = elim (Bool-cases (is_null b.block)) [
  | inl n ↦ absurd (ground (arith, v.null_len n))
  | inr s ↦ s
]

module _ (m : Allocator) where
  grown_block :
      (d : Bytes) (n : ℕ) → length d ≤ n → length (take n (d ++ m.fresh (n - length d))) ≡ n
  grown_block d n h = omega (
    arith,
    length-take n (d ++ m.fresh (n - length d)),
    length-append d (m.fresh (n - length d)),
    m.length-fresh (n - length d),
  )

  resize-Reserves :
      (b : Buffer) (extra next : ℕ)
      → IsValid b
      → b.cap ≤ next
      → next ≤ size_max
      → b.len + extra < next
      → Reserves b extra (resize m b (some next))
  unfolding resize
  resize-Reserves b extra next v h fits room = elim (Bool-cases (m.grants next)) [
    | inr refused ↦ rw (refused, resize) (refusal b extra enomem v (λ e. cc))
    | inl granted ↦
        let d = old_bytes b.block in
        let d' = take next (d ++ m.fresh (next - length d)) in
        let size : length d' ≡ next = grown_block d next (omega (arith, v.sized)) in
        let le = len-le-cap v in
        let kept : take b.len d' ≡ take b.len d =
          take-take_le b.len next (d ++ m.fresh (next - length d)) (omega arith)
          ∙ take-append_le b.len d (m.fresh (next - length d)) (omega (arith, v.sized)) in
        rw (granted, resize)
          (record {
            valid = record {
              sized = length-set d' b.len 0 ∙ size;
              small = fits;
              null_len = λ e. cc;
              terminated = λ e. (omega arith, get_elem?-set_self d' b.len 0 (omega arith));
            };
            same_len = refl;
            same = take-set_ge b.len d' b.len 0 (omega arith) ∙ kept;
            room = λ e. (refl, refl, room);
            latched = λ ne. absurd (ne refl);
          })
  ]

  reserve_live :
      (b : Buffer) (extra : ℕ)
      → IsValid b
      → b.failed ≡ false
      → b.len + extra + 1 ≤ size_max
      → reserve m b extra ≡ (
          if leb (b.len + extra + 1) b.cap
          then (ok, b)
          else resize m b (grow 64 (start_cap b) (b.len + extra + 1)))
  unfolding reserve
  reserve_live b extra v live fits = elim (Bool-cases (is_null b.block)) [
    | inl n ↦ ground (arith, v.null_len n)
    | inr s ↦ ground (arith, v.terminated s)
  ]

  -- Reserving room in a live buffer, when the size fits: either there is room for the bytes and
  -- their NUL, or the buffer is latched as failed; the contents stay as they are.
  pub reserve-Reserves :
      (b : Buffer) (extra : ℕ)
      → IsValid b
      → b.failed ≡ false
      → b.len + extra + 1 ≤ size_max
      → Reserves b extra (reserve m b extra)
  reserve-Reserves b extra v live fits =
      rw (reserve_live b extra v live fits) (elim (Bool-cases (leb (b.len + extra + 1) b.cap)) [
        | inl roomy ↦ rw roomy (record {
          valid = v;
          same_len = refl;
          same = refl;
          room = λ e. (refl, not_null b extra v roomy, ground arith);
          latched = λ ne. absurd (ne refl);
        })
        | inr tight ↦
            let (pos, keeps, small) = start_cap_bounds b v.small in
            let (next, e, g) =
              grow-Grown 64 (start_cap b) (b.len + extra + 1) pos small fits (omega arith) in
            rw (tight, e)
              (resize-Reserves b extra next v (omega (arith, g.keeps)) g.fits
                (omega (arith, g.enough)))
      ])

  -- The outcomes of a reservation, one for each cause.
  pub reserve_errors :
      (b : Buffer) (extra : ℕ)
      → IsValid b
      → (b.failed ≡ true → reserve m b extra ≡ (eio, b))
        × (b.failed ≡ false
            → b.len ≤ size_max - 1
            → size_max < b.len + extra + 1
            → reserve m b extra ≡ (eoverflow, fail b))
  unfolding reserve
  reserve_errors b extra v = (
    λ h. rw (h, reserve),
    λ live le h. elim (Bool-cases (is_null b.block)) [
      | inl n ↦ ground (arith, v.null_len n)
      | inr s ↦ ground (arith, v.terminated s)
    ],
  )

-- With memory that grants every request, a reservation whose size fits succeeds.
pub reserve_total :
    (m : Allocator) (b : Buffer) (extra : ℕ)
    → ((n : ℕ) → m.grants n ≡ true)
    → IsValid b
    → b.failed ≡ false
    → b.len + extra + 1 ≤ size_max
    → (reserve m b extra).0 ≡ ok
unfolding resize
reserve_total m b extra all v live fits =
    rw (reserve_live m b extra v live fits) (elim (Bool-cases (leb (b.len + extra + 1) b.cap)) [
      | inl roomy ↦ rw roomy
      | inr tight ↦
          let (pos, keeps, small) = start_cap_bounds b v.small in
          let (next, e, g) =
            grow-Grown 64 (start_cap b) (b.len + extra + 1) pos small fits (omega arith) in
          rw (tight, e, resize, all next)
    ])

reset_parts :
    (o : Option Bytes) (len cap : ℕ) (failed : Bool)
    → let b : Buffer = record { block = o; len = len; cap = cap; failed = failed } in
      IsValid b
      → IsValid (reset b)
        × (contents (reset b) ≡ [])
        × ((reset b).failed ≡ false)
        × ((reset b).cap ≡ cap)
unfolding reset
reset_parts none len cap failed v = (
  record { sized = refl; small = omega arith; null_len = λ e. (refl, refl); terminated = λ e. cc },
  refl,
  refl,
  omega (arith, v.null_len refl),
)
reset_parts (some d) len cap failed v =
    let (room, nul) = v.terminated refl in
    (
      record {
        sized = length-set d 0 0 ∙ v.sized;
        small = v.small;
        null_len = λ e. cc;
        terminated = λ e. (omega arith, get_elem?-set_self d 0 0 (omega (arith, v.sized)));
      },
      refl,
      refl,
      refl,
    )

-- Resetting empties the buffer, keeps its storage, and takes back the failure.
pub reset_lem :
    {b : Buffer}
    → IsValid b
    → IsValid (reset b)
      × (contents (reset b) ≡ [])
      × ((reset b).failed ≡ false)
      × ((reset b).cap ≡ b.cap)
reset_lem {b} v = reset_parts b.block b.len b.cap b.failed v
