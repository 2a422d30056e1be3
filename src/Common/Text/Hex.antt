-- ===== src/Common/Text/Hex.antt =====
-- Hexadecimal text in lower case: what `to_ascii_lowercase` makes of it, and that trimming and
-- lowering it again changes nothing.
use Prim.Native.Nat.{ℕ, zero, suc, ◌+◌, ◌-◌, ◌<◌, compare}
use Prim.Native.Char.{Char, code, len_utf8, len_utf8_def, width}
use Prim.Native.String.{String, len, char_at}
use Prim.Native.String.len.{cons as len-cons}
use mathlib.Core.Path.{◌≡◌, refl, ◌∙◌}
use mathlib.Core.Logic.{inl, inr}
use mathlib.Core.Bool.{true, false, ◌&&◌}
use native.Mathlib.Omega.{arith}
use nexum_core.Common.Tests.{leb, Bool-cases}
use nexum_core.Common.Text.{
  is_whitespace, trim_start, cut, trim_end, trim, all_chars, lower_char, to_ascii_lowercase,
  is_ascii_hexdigit,
}

-- A hexadecimal digit in lower case.
pub record IsLowHex (d : Char) : Type 0 where
  digit : is_ascii_hexdigit (code d) ≡ true
  low : lower_char d ≡ d
  width : len_utf8 d ≡ 1
  ink : is_whitespace (code d) ≡ false

letter-IsLowHex : (k : ℕ) → k < 6 → IsLowHex (char_at "abcdefghijklmnopqrstuvwxyz" k)
unfolding lower_char is_whitespace
letter-IsLowHex zero h = record { digit = refl; low = refl; width = refl; ink = refl }
letter-IsLowHex (suc zero) h = record { digit = refl; low = refl; width = refl; ink = refl }
letter-IsLowHex (suc (suc zero)) h = record { digit = refl; low = refl; width = refl; ink = refl }
letter-IsLowHex (suc (suc (suc zero))) h = record {
  digit = refl;
  low = refl;
  width = refl;
  ink = refl;
}
letter-IsLowHex (suc (suc (suc (suc zero)))) h = record {
  digit = refl;
  low = refl;
  width = refl;
  ink = refl;
}
letter-IsLowHex (suc (suc (suc (suc (suc zero))))) h = record {
  digit = refl;
  low = refl;
  width = refl;
  ink = refl;
}
letter-IsLowHex (suc (suc (suc (suc (suc (suc k)))))) h = absurd (omega arith)

width-digit : (c : Char) → is_ascii_hexdigit (code c) ≡ true → len_utf8 c ≡ 1
width-digit c h =
    let e : len_utf8 c
        ≡ width (compare (code c) 128) (compare (code c) 2048) (compare (code c) 65536) =
      λ i. len_utf8_def c i in
    e ∙ ground arith

lower_char-IsLowHex : (c : Char) → is_ascii_hexdigit (code c) ≡ true → IsLowHex (lower_char c)
unfolding lower_char is_whitespace
lower_char-IsLowHex c h = elim (Bool-cases (leb 65 (code c) && leb (code c) 90)) [
  | inl up ↦ rw up (letter-IsLowHex (code c - 65) (ground arith))
  | inr down ↦
      rw down (record { digit = h; low = rw down; width = width-digit c h; ink = ground arith })
]

-- Lower-case hexadecimal digits from end to end.
abbrev pub AllLowHex : String → Type 0
AllLowHex String.[] = Unit
AllLowHex (String.◌∷◌ c s) = IsLowHex c × AllLowHex s

pub lowercase-AllLowHex :
    (s : String) → all_chars is_ascii_hexdigit s ≡ true → AllLowHex (to_ascii_lowercase s)
unfolding all_chars to_ascii_lowercase
lowercase-AllLowHex String.[] h = tt
lowercase-AllLowHex (String.◌∷◌ c s) h =
    (lower_char-IsLowHex c (ground arith), lowercase-AllLowHex s (ground arith))

pub AllLowHex-digits : (s : String) → AllLowHex s → all_chars is_ascii_hexdigit s ≡ true
unfolding all_chars
AllLowHex-digits String.[] h = refl
AllLowHex-digits (String.◌∷◌ c s) h = rw (h.0.digit, AllLowHex-digits s h.1)

pub lowercase_low : (s : String) → AllLowHex s → to_ascii_lowercase s ≡ s
unfolding to_ascii_lowercase
lowercase_low String.[] h = refl
lowercase_low (String.◌∷◌ c s) h = rw (h.0.low, lowercase_low s h.1)

trim_end_low : (s : String) → AllLowHex s → trim_end s ≡ s
unfolding trim_end cut
trim_end_low String.[] h = refl
trim_end_low (String.◌∷◌ c String.[]) h = rw h.0.ink
trim_end_low (String.◌∷◌ c (String.◌∷◌ d s)) h = rw (trim_end_low (String.◌∷◌ d s) h.1)

trim_start_low : (s : String) → AllLowHex s → trim_start s ≡ s
unfolding trim_start
trim_start_low String.[] h = refl
trim_start_low (String.◌∷◌ c s) h = rw h.0.ink

pub trim_low : (s : String) → AllLowHex s → trim s ≡ s
unfolding trim
trim_low s h = rw (trim_start_low s h) (trim_end_low s h)

len_cons : (c : Char) (s : String) → len (String.◌∷◌ c s) ≡ len_utf8 c + len s
len_cons c s = λ i. len-cons c s i

-- Lowering keeps the length in bytes.
pub len-lowercase :
    (s : String) → all_chars is_ascii_hexdigit s ≡ true → len (to_ascii_lowercase s) ≡ len s
unfolding all_chars to_ascii_lowercase
len-lowercase String.[] h = refl
len-lowercase (String.◌∷◌ c s) h =
    let digit : is_ascii_hexdigit (code c) ≡ true = ground arith in
    let lowered = lower_char-IsLowHex c digit in
    omega (
      arith,
      len_cons c s,
      len_cons (lower_char c) (to_ascii_lowercase s),
      lowered.width,
      width-digit c digit,
      len-lowercase s (ground arith),
    )

-- Hexadecimal digits in lower case and their number: what a normalized hash or identifier is.
pub record IsHex (n : ℕ) (s : String) : Type 0 where
  pub low : AllLowHex s
  pub size : len s ≡ n
