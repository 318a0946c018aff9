-- ===== src/Metrics/Units.antt =====
-- The loop of `HumanBytes` of internal/metrics/sample.go.
use nomctl.Prelude.{
  ℕ, zero, suc, ◌≡◌, refl, ◌≤◌, ◌<◌, ◌*◌, ◌+◌, ◌/◌, leb, leb→le, leb-false→lt, Bool-cases, inl, inr,
  arith,
}
use nomctl.Metrics.{scale}

-- The bytes of one KiB, MiB and so on.
abbrev pub unit_size : ℕ → ℕ
unit_size zero = 1024
unit_size (suc n) = 1024 * unit_size n

-- The divisor fits the number, it is the size of the unit, and the unit's letter is one of the six.
abbrev pub IsUnitOf : ℕ → ℕ × ℕ → Type 0
IsUnitOf n (div, exp) = (div ≤ n) × (n < 1024 * div) × (exp < 6) × (div ≡ unit_size exp)

scale-turn :
    (f m div exp n : ℕ)
    → (m < 1024 → IsUnitOf n (div, exp))
    → (1024 ≤ m → IsUnitOf n (scale f (m / 1024) (div * 1024) (exp + 1)))
    → IsUnitOf n (scale (suc f) m div exp)
unfolding scale
scale-turn f m div exp n stop go = elim (Bool-cases (leb 1024 m)) [
  | inl more ↦ rw more (go (leb→le 1024 m more))
  | inr last ↦ rw last (stop (leb-false→lt 1024 m last))
]

-- For every 64-bit number of bytes from 1 KiB on, the loop has ended after six turns: the divisor it
-- returns is at most the number, 1024 times it is more, so that no further turn is due and no turn
-- overflows, and the unit is one of the six letters, the one of that divisor.
pub scale-IsUnitOf :
    (n : ℕ) → 1024 ≤ n → n < 18446744073709551616 → IsUnitOf n (scale 6 (n / 1024) 1024 0)
scale-IsUnitOf n low high =
    scale-turn 5 (n / 1024) 1024 0 n (λ s. (omega arith, omega arith, omega arith, refl))
      (λ a.
        scale-turn 4 (n / 1024 / 1024) 1048576 1 n
          (λ s. (omega arith, omega arith, omega arith, refl))
          (λ b.
            scale-turn 3 (n / 1024 / 1024 / 1024) 1073741824 2 n
              (λ s. (omega arith, omega arith, omega arith, refl))
              (λ c.
                scale-turn 2 (n / 1024 / 1024 / 1024 / 1024) 1099511627776 3 n
                  (λ s. (omega arith, omega arith, omega arith, refl))
                  (λ d.
                    scale-turn 1 (n / 1024 / 1024 / 1024 / 1024 / 1024) 1125899906842624 4 n
                      (λ s. (omega arith, omega arith, omega arith, refl))
                      (λ e.
                        scale-turn 0 (n / 1024 / 1024 / 1024 / 1024 / 1024 / 1024)
                          1152921504606846976 5 n
                          (λ s. (omega arith, omega arith, omega arith, refl))
                          (λ a. absurd (omega arith)))))))
