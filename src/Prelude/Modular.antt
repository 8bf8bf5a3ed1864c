-- ===== src/Prelude/Modular.antt =====
-- Remainders, for tables in which positions go round.
use Prim.Native.Nat.{ℕ, suc, ◌+◌, ◌*◌, ◌%◌, ◌/◌, ◌≤◌, ◌<◌}
use mathlib.Core.Path.{◌≡◌, ap}
use native.Mathlib.Omega.{arith}
use native.Mathlib.Decide.{ℕ_discrete, dec_lt}
use native.Mathlib.Nat.{div-add-mod, mul-le-mul_left, mul-suc}

-- Two numbers less than `n` apart with the same remainder are the same.
pub mod_unique : (n a b : ℕ) → a ≤ b → b < a + n → a % n ≡ b % n → a ≡ b
mod_unique n a b le lt same = elim (ℕ_discrete (a / n) (b / n)) [
  | yes e ↦
      let scaled : n * (a / n) ≡ n * (b / n) = ap (λ k. n * k) e in
      omega (arith, div-add-mod a n, div-add-mod b n, same, scaled)
  | no ne ↦ elim (dec_lt (a / n) (b / n)) [
    | yes less ↦ absurd (
        omega (
          arith,
          div-add-mod a n,
          div-add-mod b n,
          same,
          mul-suc n (a / n),
          mul-le-mul_left {m = suc (a / n)} {n = b / n} n (omega arith),
        ))
    | no more ↦ absurd (
        omega (
          arith,
          div-add-mod a n,
          div-add-mod b n,
          same,
          mul-suc n (b / n),
          mul-le-mul_left {m = suc (b / n)} {n = a / n} n (omega (arith, ne)),
        ))
  ]
]
