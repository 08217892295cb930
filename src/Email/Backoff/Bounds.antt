-- ===== src/Email/Backoff/Bounds.antt =====
-- The retry schedule keeps its bounds.
use practical_microservice.Common.{
  ℕ, ◌+◌, ◌-◌, ◌*◌, ◌/◌, ◌^◌, ◌≤◌, ◌<◌, ltb, arith, Bool-cases, inl, inr,
}
use native.Mathlib.Nat.{lt-mul-div-succ, div-lt_iff_lt-mul, mul-le-mul_left, mul-le-mul_right}
use practical_microservice.Email.Backoff.{BackoffOptions, Draw, min, capped_delay, backoff_delay_ms}

-- Half of `c`, and a fraction k / d of the other half, rounded.
module _ (c d k : ℕ) (positive : 0 < d) (proper : k < d) where
  abbrev rounded : ℕ
  rounded = (c * (d + k) + d) / (2 * d)

  at_least_half : c ≤ 2 * rounded
  at_least_half = elim (Bool-cases (ltb (2 * rounded) c)) [
    | inr e ↦ ground arith
    | inl e ↦
        let less : 2 * rounded + 1 ≤ c = ground arith in
        absurd (
          omega (
            arith,
            lt-mul-div-succ (c * (d + k) + d) {b = 2 * d} (omega arith),
            mul-le-mul_right d less,
          ))
  ]

  at_most : rounded ≤ c
  at_most =
      let below =
        (div-lt_iff_lt-mul {k = 2 * d} {x = c * (d + k) + d} {y = c + 1} (omega arith)).1
          (omega (arith, mul-le-mul_left {m = k} {n = d} c (omega arith))) in
      omega arith

min_le : (a b : ℕ) → min a b ≤ a
min_le a b = ground arith

-- The wait after a failed attempt is at least half of the capped delay and at most all of it, so
-- never above the ceiling, for every draw of the random source.
pub backoff_delay_ms-bounds :
    (attempts : ℕ) (options : BackoffOptions) (draw : Draw)
    → draw.drawn < draw.out_of
    → (capped_delay attempts options ≤ 2 * backoff_delay_ms attempts options draw)
      × (backoff_delay_ms attempts options draw ≤ capped_delay attempts options)
      × (backoff_delay_ms attempts options draw ≤ options.max_ms)
unfolding backoff_delay_ms capped_delay
backoff_delay_ms-bounds attempts options draw proper =
    let c = capped_delay attempts options in
    let some_draw : 0 < draw.out_of = omega arith in
    let most = at_most c draw.out_of draw.drawn some_draw proper in
    (
      at_least_half c draw.out_of draw.drawn some_draw proper,
      most,
      omega (arith, min_le options.max_ms (options.base_ms * 2 ^ min (attempts - 1) 30)),
    )
