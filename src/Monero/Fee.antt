-- ===== src/Monero/Fee.antt =====
-- crates/nxms-monero-core/src/fee_policy.rs: the fee policy and its quotes. Amounts are `u64`, the
-- rate `u32`, the product `u128`; the environment is a function.
pub mod Quote
use Prim.Native.Char.{code}
use Prim.Native.String.{◌++◌ as str_append}
use nexum_core.Common.{
  ℕ, ◌+◌, ◌-◌, ◌*◌, ◌/◌, ◌^◌, max, min, String, Bool, ◌&&◌, Option, none, some, leb, ltb, ◌==◌,
  if◌then◌else◌,
}
use nexum_core.Common.Outcome.{Result, ok, err, map_err, ◌>>=◌, ◌>>◌, ensure}
use nexum_core.Common.Text.{trim, is_empty}
use nexum_core.Monero.Types.{MoneroArbitraError, invalid_argument}
use nexum_core.Monero.Slots.{Result'}

abbrev pub u64_max : ℕ
u64_max = 2 ^ 64 - 1

abbrev pub u32_max : ℕ
u32_max = 2 ^ 32 - 1

abbrev pub u128_max : ℕ
u128_max = 2 ^ 128 - 1

abbrev pub bps_denominator : ℕ
bps_denominator = 10_000

pub record EscrowFeePolicy : Type 0 where
  pub min_escrow_amount_atomic : ℕ
  pub fee_floor_atomic : ℕ
  pub fee_bps : ℕ

pub record EscrowFundingQuote : Type 0 where
  pub fee_atomic : ℕ
  pub required_funding_atomic : ℕ

-- `u128::saturating_add`
abbrev pub saturating_add128 : ℕ → ℕ → ℕ
saturating_add128 a b = min (a + b) u128_max

unfoldable pub percent_fee : ℕ → ℕ → ℕ
percent_fee fee_bps amount_atomic =
    if fee_bps == 0
    then 0
    else saturating_add128 (amount_atomic * fee_bps) (bps_denominator - 1) / bps_denominator

-- The texts of the errors leave out the numbers that the source formats into them.
unfoldable pub quote : EscrowFeePolicy → ℕ → Result' EscrowFundingQuote
quote policy amount_atomic =
    let percent = percent_fee policy.fee_bps amount_atomic in
    let fee = max policy.fee_floor_atomic percent in
    if ltb u64_max percent
    then err (invalid_argument "computed percent fee does not fit u64")
    else if ltb u64_max (amount_atomic + fee)
    then err (invalid_argument "required funding overflow")
    else ok (record { fee_atomic = fee; required_funding_atomic = amount_atomic + fee })

-- The digits of `str::parse::<u64>`, most significant first.
parse_digits : ℕ → String → Result String ℕ
parse_digits acc String.[] = ok acc
parse_digits acc (String.◌∷◌ c s) =
    let digit = code c - b'0' in
    let rest = parse_digits (acc * 10 + digit) s in
    if leb b'0' (code c) && leb (code c) b'9'
    then if ltb u64_max (acc * 10 + digit)
      then err "number too large to fit in target type"
      else rest
    else err "invalid digit found in string"

-- After an optional sign at least one digit must follow.
parse_unsigned : String → Result String ℕ
parse_unsigned String.[] = err "invalid digit found in string"
parse_unsigned (String.◌∷◌ c s) = parse_digits 0 (String.◌∷◌ c s)

unfoldable pub parse_u64 : String → Result String ℕ
unfolding parse_digits parse_unsigned
parse_u64 String.[] = err "cannot parse integer from empty string"
parse_u64 (String.◌∷◌ c s) =
    if code c == b'+' then parse_unsigned s else parse_unsigned (String.◌∷◌ c s)

-- What `env::var(key).ok()` answers.
abbrev pub Env : Type 0
Env = String → Option String

unfoldable pub env_u64_or_default : Env → String → ℕ → Result' ℕ
env_u64_or_default env key default_value = elim (env key) [
  | none ↦ ok default_value
  | some raw ↦
      let trimmed = trim raw in
      if is_empty trimmed
      then ok default_value
      else map_err
          (λ e. invalid_argument (
            str_append key
              (str_append " must be u64, got '" (str_append trimmed (str_append "': " e)))))
          (parse_u64 trimmed)
]

unfoldable pub escrow_fee_policy_from_env : Env → Result' EscrowFeePolicy
escrow_fee_policy_from_env env = do
  min_escrow_amount_atomic ← env_u64_or_default env "ESCROW_MIN_AMOUNT_ATOMIC" 1
  fee_floor_atomic ← env_u64_or_default env "ESCROW_FEE_FLOOR_ATOMIC" 0
  fee_bps ← env_u64_or_default env "ESCROW_FEE_BPS" 0
  ensure (leb fee_bps u32_max) (invalid_argument "ESCROW_FEE_BPS out of range for u32")
  ensure (leb fee_bps 10_000) (invalid_argument "ESCROW_FEE_BPS must be <= 10000")
  ok (record {
    min_escrow_amount_atomic = min_escrow_amount_atomic;
    fee_floor_atomic = fee_floor_atomic;
    fee_bps = fee_bps;
  })
