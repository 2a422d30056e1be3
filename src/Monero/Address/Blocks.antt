-- ===== src/Monero/Address/Blocks.antt =====
-- What a block of base58 is decoded to.
use nexum_core.Common.{
  ℕ, ◌+◌, ◌*◌, ◌/◌, ◌%◌, ◌^◌, ◌≤◌, ◌<◌, leb, ltb, ltb→lt, ◌≡◌, refl, sym, ap, ◌∙◌, true, ◌&&◌,
  Option, none, some, List, [], ◌∷◌, length, inl, inr, if◌then◌else◌, arith, Bool-cases,
  Option-cases,
}
use Prim.Native.Nat.{zero, suc}
use native.Mathlib.Nat.{
  div-add-mod', mul-add-mod_self_right, mod-eq_of_lt, mod-lt, mul-le-mul_right, pow-suc, one-le-pow,
  pow-le-pow_right,
}
use nexum_core.Monero.Address.{u64_max, b58_value, accumulate, out_bytes, decode_block}

-- The number that the digits stand for.
pub block_value : ℕ → List ℕ → Option ℕ
block_value acc [] = some acc
block_value acc (ch ∷ rest) = elim (b58_value ch) [
  | none ↦ none
  | some digit ↦ block_value (acc * 58 + digit) rest
]

-- The number that the bytes stand for.
pub bytes_value : List ℕ → ℕ
bytes_value [] = 0
bytes_value (b ∷ bs) = b * 256 ^ length bs + bytes_value bs

abbrev AtLeast : ℕ → Option ℕ → Type 0
AtLeast n none = Unit
AtLeast n (some v) = n ≤ v

weaker : (n m : ℕ) (o : Option ℕ) → n ≤ m → AtLeast m o → AtLeast n o
weaker n m none h l = tt
weaker n m (some v) h l = omega arith

block_value-AtLeast : (acc : ℕ) (input : List ℕ) → AtLeast acc (block_value acc input)
unfolding block_value
block_value-AtLeast acc [] = omega arith
block_value-AtLeast acc (ch ∷ rest) = elim (Option-cases (b58_value ch)) [
  | inl n ↦ rw (n, block_value, AtLeast) tt
  | inr (digit, f) ↦
      rw (f, block_value)
        (weaker acc (acc * 58 + digit) (block_value (acc * 58 + digit) rest) (omega arith)
          (block_value-AtLeast (acc * 58 + digit) rest))
]

abbrev in_u64 : Option ℕ → Option ℕ
in_u64 none = none
in_u64 (some v) = if ltb u64_max v then none else some v

-- Above u64 a number stays above it.
in_u64_above : (n : ℕ) (o : Option ℕ) → u64_max < n → AtLeast n o → in_u64 o ≡ none
in_u64_above n none h l = refl
in_u64_above n (some v) h l = ground arith

accumulate_exact :
    (acc : ℕ) (input : List ℕ)
    → acc ≤ u64_max
    → accumulate acc input ≡ in_u64 (block_value acc input)
unfolding accumulate block_value
accumulate_exact acc [] h = ground arith
accumulate_exact acc (ch ∷ rest) h = elim (Option-cases (b58_value ch)) [
  | inl n ↦ rw (n, accumulate, block_value) refl
  | inr (digit, f) ↦
      rw (f, accumulate, block_value)
        (ground (
          arith,
          accumulate_exact (acc * 58 + digit) rest,
          block_value-AtLeast (acc * 58 + digit) rest,
          in_u64_above (acc * 58 + digit) (block_value (acc * 58 + digit) rest),
        ))
]

length-out_bytes : (value n : ℕ) → length (out_bytes value n) ≡ n
unfolding out_bytes
length-out_bytes value zero = refl
length-out_bytes value (suc k) = ap suc (length-out_bytes value k)

regroup : (a b p r : ℕ) → (a * 256 + b) * p + r ≡ a * (p * 256) + (b * p + r)
regroup a b p r = omega arith

small : (b p r : ℕ) → b < 256 → r < p → b * p + r < p * 256
small b p r h l = let m : b * p ≤ 255 * p = mul-le-mul_right p (omega arith) in omega arith

-- One byte more of a remainder.
mod_step : (value p : ℕ) → 0 < p → value % (p * 256) ≡ value / p % 256 * p + value % p
mod_step value p h =
    let q = value / p in
    let e : value ≡ q / 256 * (p * 256) + (q % 256 * p + value % p) =
      sym (div-add-mod' value p)
      ∙ (ap (λ x. x * p + value % p) (sym (div-add-mod' q 256))
          ∙ regroup (q / 256) (q % 256) p (value % p)) in
    ap (λ x. x % (p * 256)) e
    ∙ (mul-add-mod_self_right (q / 256) (p * 256) (q % 256 * p + value % p)
        ∙ mod-eq_of_lt (small (q % 256) p (value % p) (mod-lt q (omega arith)) (mod-lt value h)))

-- The bytes of a number stand for it, as far as there is room.
bytes_value-out_bytes : (value n : ℕ) → bytes_value (out_bytes value n) ≡ value % 256 ^ n
unfolding bytes_value out_bytes
bytes_value-out_bytes value zero = omega arith
bytes_value-out_bytes value (suc k) = rw (length-out_bytes value k) (
    rw (bytes_value-out_bytes value k)
      (rw (pow-suc 256 k) (sym (mod_step value (256 ^ k) (one-le-pow k 256 (omega arith))))))

-- The block as a number that fits u64 and the bytes asked for, if it has only digits.
abbrev pub in_block : ℕ → Option ℕ → Option ℕ
in_block out_len none = none
in_block out_len (some v) = if ltb v (256 ^ out_len) then some v else none

abbrev pub value_of : Option (List ℕ) → Option ℕ
value_of none = none
value_of (some bs) = some (bytes_value bs)

room : (n : ℕ) → n ≤ 8 → 256 ^ n ≤ 256 ^ 8
room n h = pow-le-pow_right (omega arith) h

full : (n : ℕ) → n ≡ 8 → 256 ^ n ≡ 256 ^ 8
full n h = ap (λ x. 256 ^ x) h

fits : (v n : ℕ) → ltb v (256 ^ n) ≡ true → bytes_value (out_bytes v n) ≡ v
fits v n h = bytes_value-out_bytes v n ∙ mod-eq_of_lt (ltb→lt v (256 ^ n) h)

-- What is done with a number that fits u64.
emit :
    (v n : ℕ)
    → n ≤ 8
    → v ≤ u64_max
    → value_of (if ltb n 8 && leb (256 ^ n) v then none else some (out_bytes v n))
      ≡ in_block n (some v)
emit v n h u = elim (Bool-cases (ltb v (256 ^ n))) [
  | inl f ↦ rw f (ground (arith, fits v n f))
  | inr f ↦ rw f (ground (arith, full n))
]

abbrev finish : ℕ → Option ℕ → Option (List ℕ)
finish n o = elim o [
  | none ↦ none
  | some acc ↦ if ltb n 8 && leb (256 ^ n) acc then none else some (out_bytes acc n)
]

from_number :
    (n : ℕ)
    → n ≤ 8
    → (value acc : Option ℕ) → acc ≡ in_u64 value
    → value_of (finish n acc) ≡ in_block n value
from_number n h none acc e = rw e refl
from_number n h (some v) acc e = rw e (elim (Bool-cases (ltb u64_max v)) [
  | inl g ↦ rw g (ground (arith, room n h))
  | inr g ↦ rw g (emit v n h (ground arith))
])

-- A block of base58 is decoded exactly if all its characters are digits and the number that they stand
-- for fits the bytes asked for, eight at most; the bytes then stand for that number.
pub decode_block_exact :
    (input : List ℕ) (out_len : ℕ)
    → out_len ≤ 8
    → value_of (decode_block input out_len) ≡ in_block out_len (block_value 0 input)
unfolding decode_block
decode_block_exact input out_len h =
    from_number out_len h (block_value 0 input) (accumulate 0 input)
      (accumulate_exact 0 input (omega arith))
