-- ===== src/Buffer/Grow.antt =====
-- The growth loop of `dynamic_buffer_reserve`: it ends, and the capacity that it finds is enough.
use native.Mathlib.Nat.{pow-suc}
use stream_data_pipline.Prelude.{
  ℕ, zero, suc, ◌*◌, ◌/◌, ◌^◌, ◌≤◌, ◌<◌, ◌≡◌, ap, ◌⊎◌, inl, inr, refl, some, arith, ltb, ltb→lt,
  Bool-cases,
}
use stream_data_pipline.Buffer.{size_max, grow}

-- A capacity that the loop may stop at.
pub record Grown (next need r : ℕ) : Type 0 where
  pub enough : need ≤ r
  pub keeps : next ≤ r
  pub fits : r ≤ size_max
  pub tight : (r ≡ next) ⊎ (r < need * 2)

Grown-twice : (next need r : ℕ) → next < need → Grown (next * 2) need r → Grown next need r
Grown-twice next need r h g = record {
  enough = g.enough;
  keeps = omega (arith, g.keeps);
  fits = g.fits;
  tight = inr (omega arith);
}

-- From a capacity of at least 1 the loop ends within the given rounds, if they can double it past
-- what is needed: at a capacity that is large enough, no smaller than before, below 2 ^ 64, and
-- either the old one or less than twice what is needed.
pub grow-Grown :
    (fuel next need : ℕ)
    → 0 < next
    → next ≤ size_max
    → need ≤ size_max
    → need ≤ next * 2 ^ fuel
    → (r : ℕ) × (grow fuel next need ≡ some r) × Grown next need r
unfolding grow
grow-Grown zero next need pos small fits h = (
  next,
  ground arith,
  record { enough = omega arith; keeps = omega arith; fits = small; tight = inl refl },
)
grow-Grown (suc fuel) next need pos small fits h = elim (Bool-cases (ltb next need)) [
  | inl more ↦ elim (Bool-cases (ltb (size_max / 2) next)) [
    | inl large ↦ (
      need,
      rw (more, large),
      record {
        enough = omega arith;
        keeps = ground arith;
        fits = fits;
        tight = inr (ground arith);
      },
    )
    | inr half ↦
        let bound : need ≤ next * 2 * 2 ^ fuel =
          omega (arith, ap (λ (t : ℕ). next * t) (pow-suc 2 fuel)) in
        let (r, e, g) = grow-Grown fuel (next * 2) need (omega arith) (ground arith) fits bound in
        (r, rw (more, half) e, Grown-twice next need r (ltb→lt next need more) g)
  ]
  | inr done ↦ (
    next,
    rw done,
    record { enough = ground arith; keeps = omega arith; fits = small; tight = inl refl },
  )
]
