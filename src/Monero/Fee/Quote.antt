-- ===== src/Monero/Fee/Quote.antt =====
-- What a quote promises.
use nexum_core.Common.{
  ℕ, ◌+◌, ◌*◌, ◌≤◌, ◌<◌, max, ◌≡◌, inl, inr, false, arith, ◌==◌, Bool-cases, ==_iff,
}
use nexum_core.Common.Outcome.{ok, is_ok}
use nexum_core.Monero.Fee.{
  u64_max, u32_max, EscrowFeePolicy, EscrowFundingQuote, percent_fee, quote, Env,
  escrow_fee_policy_from_env,
}

-- The product of a `u64` and a `u32`.
product_bound :
    (amount bps : ℕ) → amount ≤ u64_max → bps ≤ u32_max → amount * bps ≤ u64_max * u32_max
product_bound amount bps h k = grind arith

percent_fee_ceil :
    (amount bps : ℕ)
    → amount ≤ u64_max
    → bps ≤ u32_max
    → (amount * bps ≤ percent_fee bps amount * 10_000)
      × (percent_fee bps amount * 10_000 < amount * bps + 10_000)
unfolding percent_fee
percent_fee_ceil amount bps h k = elim (Bool-cases (bps == 0)) [
  | inl z ↦ rw ((==_iff bps 0).0 z) (omega arith, omega arith)
  | inr z ↦
      rw z
        (omega (arith, product_bound amount bps h k), omega (arith, product_bound amount bps h k))
]

-- `c` is `amount * bps / 10000`, rounded up.
abbrev pub IsCeiling : ℕ → ℕ → ℕ → Type 0
IsCeiling amount bps c = (amount * bps ≤ c * 10_000) × (c * 10_000 < amount * bps + 10_000)

percent_fee_unique :
    (amount bps c : ℕ)
    → amount ≤ u64_max
    → bps ≤ u32_max
    → IsCeiling amount bps c
    → percent_fee bps amount ≡ c
percent_fee_unique amount bps c h k ceil = omega (arith, percent_fee_ceil amount bps h k)

quote_at :
    (policy : EscrowFeePolicy) (amount c : ℕ)
    → percent_fee policy.fee_bps amount ≡ c
    → let fee = max policy.fee_floor_atomic c in
      (amount + fee ≤ u64_max
        → quote policy amount
          ≡ ok (record { fee_atomic = fee; required_funding_atomic = amount + fee }))
      × (u64_max < amount + fee → is_ok (quote policy amount) ≡ false)
unfolding quote
quote_at policy amount c e = (ground arith, ground arith)

-- For `u64` amounts and `u32` rates the fee is the larger of the floor and the percentage rounded
-- up; the quote is that fee and the amount with it if their sum fits `u64`, and an error if not.
pub quote_exact :
    (policy : EscrowFeePolicy) (amount c : ℕ)
    → amount ≤ u64_max
    → policy.fee_bps ≤ u32_max
    → IsCeiling amount policy.fee_bps c
    → let fee = max policy.fee_floor_atomic c in
      (amount + fee ≤ u64_max
        → quote policy amount
          ≡ ok (record { fee_atomic = fee; required_funding_atomic = amount + fee }))
      × (u64_max < amount + fee → is_ok (quote policy amount) ≡ false)
quote_exact policy amount c h k ceil =
    quote_at policy amount c (percent_fee_unique amount policy.fee_bps c h k ceil)

env_rate_bounded :
    (env : Env) (policy : EscrowFeePolicy)
    → escrow_fee_policy_from_env env ≡ ok policy
    → policy.fee_bps ≤ 10_000
unfolding escrow_fee_policy_from_env
env_rate_bounded env policy h = ground arith

rate_bound : (amount bps : ℕ) → bps ≤ 10_000 → amount * bps ≤ amount * 10_000
rate_bound amount bps h = grind arith

quote_parts :
    (policy : EscrowFeePolicy) (amount : ℕ) (q : EscrowFundingQuote)
    → quote policy amount ≡ ok q
    → (q.fee_atomic ≡ max policy.fee_floor_atomic (percent_fee policy.fee_bps amount))
      × (q.required_funding_atomic ≡ amount + q.fee_atomic)
      × (q.required_funding_atomic ≤ u64_max)
unfolding quote
quote_parts policy amount q h = ground arith

-- Under a policy that was read from the environment, the fee of a quote is at least the floor and
-- at most the larger of the floor and the amount; the funding it requires is the amount and the
-- fee, and fits `u64`.
quote_from_env_bounded :
    (env : Env) (policy : EscrowFeePolicy) (amount : ℕ) (q : EscrowFundingQuote)
    → escrow_fee_policy_from_env env ≡ ok policy
    → amount ≤ u64_max
    → quote policy amount ≡ ok q
    → (policy.fee_floor_atomic ≤ q.fee_atomic)
      × (q.fee_atomic ≤ max policy.fee_floor_atomic amount)
      × (q.required_funding_atomic ≡ amount + q.fee_atomic)
      × (q.required_funding_atomic ≤ u64_max)
quote_from_env_bounded env policy amount q read h quoted =
    let rate = env_rate_bounded env policy read in
    let parts = quote_parts policy amount q quoted in
    let ceil = percent_fee_ceil amount policy.fee_bps h (omega arith) in
    let bound = rate_bound amount policy.fee_bps rate in
    (omega arith, omega arith, omega arith, omega arith)
