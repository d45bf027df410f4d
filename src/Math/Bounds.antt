-- ===== src/Math/Bounds.antt =====
-- Shares of an amount: what `mul_div` gives for each part adds up to the amount but for rounding.
use native.Mathlib.Decide.{dec_le}
use ton_validators_rewards_a.Base.{
  ℕ, suc, ◌+◌, ◌*◌, ◌≤◌, ◌<◌, ◌≡◌, List, [], ◌∷◌, map, arith, length,
}
use ton_validators_rewards_a.Base.Int.{
  ℤ, pos, pos_part, neg_part, ◌+ℤ◌, ◌*ℤ◌, ◌≤ℤ◌, ◌<ℤ◌, sum_ℤ, div_ℤ, div_ℤ_floor, +ℤ_parts, *ℤ_parts,
  *ℤ_distrib,
}

-- The share of `pool` that belongs to the part `s` of `total`.
abbrev pub share : ℤ → ℕ → ℤ → ℤ
share pool total s = div_ℤ (pool *ℤ s) (pos total)

le_of_mul : (t a b : ℕ) → suc t * a ≤ suc t * b → a ≤ b
le_of_mul t a b h = elim (dec_le a b) [ yes p ↦ p | no p ↦ absurd (grind arith) ]

mul_le : (t a b : ℕ) → a ≤ b → t * a ≤ t * b
mul_le t a b h = grind arith

lt_of_mul : (t a b n : ℕ) → suc t * a ≤ suc t * b + t * n → 0 < n → a < b + n
lt_of_mul t a b n h p = elim (dec_le (b + n) a) [
  | yes q ↦ absurd (omega (arith, mul_le t (b + n) a q))
  | no q ↦ omega arith
]

module _ (pool : ℤ) (t : ℕ) where
  -- Multiplied by the total, the shares miss the product by less than the total for each of them.
  shares_scaled :
      (parts : List ℤ)
      → (pos (suc t) *ℤ sum_ℤ (map (share pool (suc t)) parts) ≤ℤ pool *ℤ sum_ℤ parts)
        × (pool *ℤ sum_ℤ parts
            ≤ℤ pos (suc t) *ℤ sum_ℤ (map (share pool (suc t)) parts) +ℤ pos (t * length parts))
  shares_scaled [] = omega (
    arith,
    *ℤ_parts (pos (suc t)) (pos 0),
    *ℤ_parts pool (pos 0),
    +ℤ_parts (pos (suc t) *ℤ pos 0) (pos (t * 0)),
  )
  shares_scaled (s ∷ parts) =
      let rest = sum_ℤ (map (share pool (suc t)) parts) in
      rw (*ℤ_distrib (pos (suc t)) (share pool (suc t) s) rest, *ℤ_distrib pool s (sum_ℤ parts))
        (omega (
          arith,
          shares_scaled parts,
          div_ℤ_floor (pool *ℤ s) (suc t) (omega arith),
          +ℤ_parts (pos (suc t) *ℤ share pool (suc t) s) (pos (suc t)),
          +ℤ_parts (pos (suc t) *ℤ share pool (suc t) s) (pos (suc t) *ℤ rest),
          +ℤ_parts (pool *ℤ s) (pool *ℤ sum_ℤ parts),
          +ℤ_parts (pos (suc t) *ℤ rest) (pos (t * length parts)),
          +ℤ_parts (pos (suc t) *ℤ share pool (suc t) s +ℤ pos (suc t) *ℤ rest)
              (pos (t * suc (length parts))),
        ))

  -- The shares of a whole pool never exceed it, and fall short of it by less than one unit for
  -- each part, whatever the sign of the pool.
  pub shares_of_whole :
      (parts : List ℤ)
      → sum_ℤ parts ≡ pos (suc t)
      → (sum_ℤ (map (share pool (suc t)) parts) ≤ℤ pool)
        × (pool <ℤ sum_ℤ (map (share pool (suc t)) parts) +ℤ pos (length parts))
  shares_of_whole [] whole = cc
  shares_of_whole (s ∷ parts) whole =
      let rewards = sum_ℤ (map (share pool (suc t)) (s ∷ parts)) in
      let n = length (s ∷ parts) in
      let (low, high) = rw whole at (shares_scaled (s ∷ parts)) in
      (
        le_of_mul t (pos_part rewards + neg_part pool) (pos_part pool + neg_part rewards)
            (omega (arith, *ℤ_parts pool (pos (suc t)), *ℤ_parts (pos (suc t)) rewards)),
        omega (
          arith,
          lt_of_mul t (pos_part pool + neg_part rewards) (pos_part rewards + neg_part pool) n
              (omega (
                arith,
                *ℤ_parts pool (pos (suc t)),
                *ℤ_parts (pos (suc t)) rewards,
                +ℤ_parts (pos (suc t) *ℤ rewards) (pos (t * n)),
              ))
              (omega arith),
          +ℤ_parts rewards (pos n),
        ),
      )
