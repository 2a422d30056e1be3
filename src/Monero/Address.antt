-- ===== src/Monero/Address.antt =====
-- crates/nxms-monero-core/src/xmr_address.rs: Monero's base58 in blocks, and the check of an address. Bytes
-- are numbers; Keccak-256 is a parameter. The contract takes the check as a parameter of its own.
pub mod Blocks
use nexum_core.Common.{
  ℕ, ◌+◌, ◌-◌, ◌*◌, ◌/◌, ◌%◌, ◌^◌, ◌≤◌, ◌<◌, leb, ltb, ltb→lt, ◌==◌, String, ◌≡◌, refl, sym, ap,
  ◌∙◌, Bool, true, false, ◌&&◌, ◌||◌, not, Option, none, some, List, [], ◌∷◌, ◌++◌, length, inl,
  inr, if◌then◌else◌, arith, Bool-cases, Option-cases,
}
use Prim.Native.Nat.{zero, suc}
use nexum_core.Common.Text.{trim, len, all_chars}
use Prim.Native.Char.{code}
use native.Mathlib.Nat.{
  div-add-mod', mul-add-mod_self_right, mod-eq_of_lt, mod-lt, mul-le-mul_right, pow-suc, one-le-pow,
  pow-le-pow_right,
}

abbrev pub u64_max : ℕ
u64_max = 2 ^ 64 - 1

unfoldable pub position_from : ℕ → ℕ → String → Option ℕ
position_from idx ch String.[] = none
position_from idx ch (String.◌∷◌ c rest) =
    let later = position_from (idx + 1) ch rest in if code c == ch then some idx else later

unfoldable pub b58_value : ℕ → Option ℕ
b58_value ch = position_from 0 ch "123456789ABCDEFGHJKLMNPQRSTUVWXYZabcdefghijkmnopqrstuvwxyz"

abbrev pub decoded_block_size : ℕ → Option ℕ
decoded_block_size encoded_len =
    if encoded_len == 2
    then some 1
    else if encoded_len == 3
    then some 2
    else if encoded_len == 5
    then some 3
    else if encoded_len == 6
    then some 4
    else if encoded_len == 7
    then some 5
    else if encoded_len == 9
    then some 6
    else if encoded_len == 10
    then some 7
    else if encoded_len == 11
    then some 8
    else none

-- The loop over the characters; the number never leaves u64.
unfoldable pub accumulate : ℕ → List ℕ → Option ℕ
accumulate acc [] = some acc
accumulate acc (ch ∷ rest) = elim (b58_value ch) [
  | none ↦ none
  | some digit ↦
      let later = accumulate (acc * 58 + digit) rest in
      if ltb u64_max (acc * 58 + digit) then none else later
]

-- The loop over the bytes: `shift` is 8 for each byte that follows.
unfoldable pub out_bytes : ℕ → ℕ → List ℕ
out_bytes value zero = []
out_bytes value (suc following) = (value / 256 ^ following % 256) ∷ out_bytes value following

unfoldable pub decode_block : List ℕ → ℕ → Option (List ℕ)
decode_block input out_len = elim (accumulate 0 input) [
  | none ↦ none
  | some acc ↦
      if ltb out_len 8 && leb (256 ^ out_len) acc then none else some (out_bytes acc out_len)
]

-- `&input[..n]` and `&input[n..]`
abbrev pub first : ℕ → List ℕ → List ℕ
first n [] = []
first zero (b ∷ bs) = []
first (suc n) (b ∷ bs) = b ∷ first n bs

abbrev pub after : ℕ → List ℕ → List ℕ
after n [] = []
after zero (b ∷ bs) = b ∷ bs
after (suc n) (b ∷ bs) = after n bs

abbrev pub both : Option (List ℕ) → Option (List ℕ) → Option (List ℕ)
both none more = none
both (some bs) none = none
both (some bs) (some cs) = some (bs ++ cs)

unfoldable pub decode_last : List ℕ → Option (List ℕ)
decode_last input = elim (decoded_block_size (length input)) [
  | none ↦ none
  | some size ↦ decode_block input size
]

-- The loop over the full blocks, then the last one.
unfoldable pub decode_blocks : ℕ → List ℕ → Option (List ℕ)
decode_blocks zero input = if length input == 0 then some [] else decode_last input
decode_blocks (suc n) input =
    both (decode_block (first 11 input) 8) (decode_blocks n (after 11 input))

unfoldable pub decode_monero_base58 : List ℕ → Option (List ℕ)
decode_monero_base58 input =
    if length input == 0 then none else decode_blocks (length input / 11) input

unfoldable pub valid_prefix_for_payload : ℕ → ℕ → Bool
valid_prefix_for_payload prefix payload_len =
    (payload_len == 65
      && (prefix == 18
          || (prefix == 24 || (prefix == 36 || (prefix == 42 || (prefix == 53 || prefix == 63))))))
    || (payload_len == 73 && (prefix == 19 || (prefix == 25 || prefix == 54)))

abbrev pub same_bytes : List ℕ → List ℕ → Bool
same_bytes [] [] = true
same_bytes [] (c ∷ cs) = false
same_bytes (b ∷ bs) [] = false
same_bytes (b ∷ bs) (c ∷ cs) = b == c && same_bytes bs cs

-- `payload.is_empty()`, else its first byte is the prefix.
abbrev pub has_prefix : List ℕ → Bool
has_prefix [] = false
has_prefix (prefix ∷ rest) = valid_prefix_for_payload prefix (length (prefix ∷ rest))

-- `trimmed.as_bytes()` of a text in ASCII
abbrev pub as_bytes : String → List ℕ
as_bytes String.[] = []
as_bytes (String.◌∷◌ c rest) = code c ∷ as_bytes rest

module _ (keccak256 : List ℕ → List ℕ) where
  abbrev pub valid_decoded : Option (List ℕ) → Bool
  valid_decoded none = false
  valid_decoded (some decoded) =
      let payload_len = length decoded - 4 in
      let payload = first payload_len decoded in
      not (ltb (length decoded) 5)
      && (has_prefix payload
          && same_bytes (after payload_len decoded) (first 4 (keccak256 payload)))

  unfoldable pub is_valid_xmr_address : String → Bool
  is_valid_xmr_address addr =
      let trimmed = trim addr in
      (len trimmed == 95 || len trimmed == 106)
      && (all_chars (λ c. ltb c 128) trimmed
          && valid_decoded (decode_monero_base58 (as_bytes trimmed)))
