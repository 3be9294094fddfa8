-- ===== src/Json/Numbers.antt =====
-- What lib/jsonl_codec.c does with a `double`: comparisons, and conversions from and to integers.
use stream_data_pipline.Prelude.{◌+◌, ◌/◌, ◌^◌, ◌<◌, ◌≡◌, Bool, true, ◌==◌, arith, ◌&&◌}
use stream_data_pipline.Prelude.Int.{ℤ, pos_part, neg_part, ltb_ℤ, sub_ℕ}

pub record Double (D : Type 0) : Type 0 where
  -- `(double)v`
  pub of_ℤ : ℤ → D
  -- `x < y`
  pub lt : D → D → Bool
  -- `x == y`
  pub same : D → D → Bool
  -- `(int64_t)x`
  pub trunc : D → ℤ

-- Every integer up to 2^53 in size is a double of its own.
abbrev pub IsSafe : ℤ → Type 0
IsSafe z = pos_part z + neg_part z < 2 ^ 53

-- IEEE 754: conversion from an integer is exact on the safe ones and monotone everywhere, so
-- comparing with a safe one is comparing the integers; conversion to an integer drops a fraction,
-- and there is none in a double that equals a safe integer.
pub record IsIeee {D : Type 0} (d : Double D) : Type 0 where
  pub lt_safe :
      (a b : ℤ)
      → IsSafe a
      → (d.lt (d.of_ℤ a) (d.of_ℤ b) ≡ ltb_ℤ a b) × (d.lt (d.of_ℤ b) (d.of_ℤ a) ≡ ltb_ℤ b a)
  pub same_lt : (x y z : D) → d.same x y ≡ true → (d.lt x z ≡ d.lt y z) × (d.lt z x ≡ d.lt z y)
  pub trunc_same : (a : ℤ) (x : D) → IsSafe a → d.same (d.of_ℤ a) x ≡ true → d.trunc x ≡ a

-- The laws can be met: halves, as integers, with exact comparisons.
abbrev pub halves : Double ℤ
halves = record {
  of_ℤ = λ z. sub_ℕ (pos_part z + pos_part z) (neg_part z + neg_part z);
  lt = ltb_ℤ;
  same = λ a b. pos_part a == pos_part b && neg_part a == neg_part b;
  trunc = λ z. sub_ℕ (pos_part z / 2) (neg_part z / 2);
}

pub halves-IsIeee : IsIeee halves
halves-IsIeee = record {
  lt_safe = λ a b s. (ground arith, ground arith);
  same_lt = λ x y z e. (ground arith, ground arith);
  trunc_same = λ a x s e. ground arith;
}
