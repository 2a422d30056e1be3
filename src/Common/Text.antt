-- ===== src/Common/Text.antt =====
-- The operations of Rust's `str` that the program uses. `len` is the library's: the bytes of the
-- UTF-8 encoding.
pub mod Hex
use Prim.Native.Nat.{ℕ, ◌-◌}
use Prim.Native.Char.{Char, code}
use Prim.Native.String.{String, len, char_at}
use mathlib.Core.Path.{◌≡◌, refl, ◌∙◌}
use mathlib.Core.Logic.{inl, inr}
use mathlib.Core.Bool.{Bool, true, false, ◌&&◌, ◌||◌}
use mathlib.Core.Option.{Option, none, some}
use nexum_core.Common.Tests.{leb, ◌==◌, if◌then◌else◌, Bool-cases}
pub use Prim.Native.String.{len}

-- `char::is_whitespace`, the code points of Unicode's White_Space.
pub is_whitespace : ℕ → Bool
is_whitespace c =
    (leb 9 c && leb c 13)
    || c == 32
    || c == 0x85
    || c == 0xa0
    || c == 0x1680
    || (leb 0x2000 c && leb c 0x200a)
    || c == 0x2028
    || c == 0x2029
    || c == 0x202f
    || c == 0x205f
    || c == 0x3000

-- `str::trim_start`
pub trim_start : String → String
unfolding is_whitespace
trim_start String.[] = String.[]
trim_start (String.◌∷◌ c s) =
    let rest = trim_start s in if is_whitespace (code c) then rest else String.◌∷◌ c s

-- One character in front of a text without trailing white space.
pub cut : Char → String → String
unfolding is_whitespace
cut c String.[] = if is_whitespace (code c) then String.[] else String.◌∷◌ c String.[]
cut c (String.◌∷◌ d s) = String.◌∷◌ c (String.◌∷◌ d s)

-- `str::trim_end`
pub trim_end : String → String
unfolding cut
trim_end String.[] = String.[]
trim_end (String.◌∷◌ c s) = cut c (trim_end s)

-- `str::trim`
unfoldable pub trim : String → String
unfolding trim_start trim_end
trim s = trim_end (trim_start s)

-- `str::is_empty`
abbrev pub is_empty : String → Bool
is_empty String.[] = true
is_empty (String.◌∷◌ c s) = false

-- `s.bytes().all(p)` for a `p` that is false on the bytes of every character beyond ASCII.
unfoldable pub all_chars : (ℕ → Bool) → String → Bool
all_chars p String.[] = true
all_chars p (String.◌∷◌ c s) = p (code c) && all_chars p s

-- `char::to_ascii_lowercase`
pub lower_char : Char → Char
lower_char c =
    if leb 65 (code c) && leb (code c) 90
    then char_at "abcdefghijklmnopqrstuvwxyz" (code c - 65)
    else c

-- `str::to_ascii_lowercase`
unfoldable pub to_ascii_lowercase : String → String
unfolding lower_char
to_ascii_lowercase String.[] = String.[]
to_ascii_lowercase (String.◌∷◌ c s) = String.◌∷◌ (lower_char c) (to_ascii_lowercase s)

-- `char::to_ascii_uppercase`
upper_char : Char → Char
upper_char c =
    if leb 97 (code c) && leb (code c) 122
    then char_at "ABCDEFGHIJKLMNOPQRSTUVWXYZ" (code c - 97)
    else c

-- `str::to_ascii_uppercase`
unfoldable pub to_ascii_uppercase : String → String
unfolding upper_char
to_ascii_uppercase String.[] = String.[]
to_ascii_uppercase (String.◌∷◌ c s) = String.◌∷◌ (upper_char c) (to_ascii_uppercase s)

-- `str::trim_end_matches` with a predicate on the characters
unfoldable pub trim_end_matches : (ℕ → Bool) → String → String
trim_end_matches p String.[] = String.[]
trim_end_matches p (String.◌∷◌ c s) =
    let rest = trim_end_matches p s in
    if is_empty rest && p (code c) then String.[] else String.◌∷◌ c rest

-- `u8::is_ascii_hexdigit`
abbrev pub is_ascii_hexdigit : ℕ → Bool
is_ascii_hexdigit b =
    (leb b'0' b && leb b b'9') || (leb b'a' b && leb b b'f') || (leb b'A' b && leb b b'F')

-- `u8::is_ascii_alphanumeric`
abbrev pub is_ascii_alphanumeric : ℕ → Bool
is_ascii_alphanumeric b =
    (leb b'0' b && leb b b'9') || (leb b'a' b && leb b b'z') || (leb b'A' b && leb b b'Z')

trim_end-cut : (c : Char) (s : String) → trim_end s ≡ s → trim_end (cut c s) ≡ cut c s
unfolding trim_end
trim_end-cut c String.[] h = elim (Bool-cases (is_whitespace (code c))) [
  | inl w ↦ rw w
  | inr w ↦ rw w (rw w)
]
trim_end-cut c (String.◌∷◌ d s) h = rw h

trim_end_idem : (s : String) → trim_end (trim_end s) ≡ trim_end s
unfolding trim_end
trim_end_idem String.[] = refl
trim_end_idem (String.◌∷◌ c s) = trim_end-cut c (trim_end s) (trim_end_idem s)

trim_start_idem : (s : String) → trim_start (trim_start s) ≡ trim_start s
unfolding trim_start
trim_start_idem String.[] = refl
trim_start_idem (String.◌∷◌ c s) = elim (Bool-cases (is_whitespace (code c))) [
  | inl w ↦ rw w (trim_start_idem s)
  | inr w ↦ rw w (rw w)
]

trim_start-cut :
    (c : Char) (s : String)
    → trim_start (cut c s) ≡ (if is_whitespace (code c) then trim_start s else cut c s)
unfolding cut trim_start
trim_start-cut c String.[] = elim (Bool-cases (is_whitespace (code c))) [
  | inl w ↦ rw w
  | inr w ↦ rw w (rw w)
]
trim_start-cut c (String.◌∷◌ d s) = refl

trim_start-trim_end : (s : String) → trim_start (trim_end s) ≡ trim_end (trim_start s)
unfolding trim_start trim_end
trim_start-trim_end String.[] = refl
trim_start-trim_end (String.◌∷◌ c s) = elim (Bool-cases (is_whitespace (code c))) [
  | inl w ↦ rw w (trim_start-cut c (trim_end s) ∙ rw w (trim_start-trim_end s))
  | inr w ↦ rw w (trim_start-cut c (trim_end s) ∙ rw w)
]

-- Trimming a second time changes nothing.
pub trim_idem : (s : String) → trim (trim s) ≡ trim s
unfolding trim
trim_idem s = simp (trim_start-trim_end, trim_end_idem, trim_start_idem)

-- `o.as_deref().map(str::trim).filter(|v| !v.is_empty())`
unfoldable pub present : Option String → Option String
present none = none
present (some s) = let t = trim s in if is_empty t then none else some t
