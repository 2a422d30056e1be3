-- ===== src/Transport/Security.antt =====
-- crates/nxms-transport/src/security.rs: the comparison of two texts in a time that does not depend on
-- them. A text is the list of its bytes.
pub mod Bits
use Prim.Native.Nat.{bit_or, bit_xor}
use nexum_core.Common.{
  ℕ, zero, suc, ◌+◌, ◌≤◌, ◌<◌, ltb, ◌==◌, ==_iff, ◌≡◌, refl, subst, ◌↔◌, Bool, true, false, ◌||◌,
  List, [], ◌∷◌, length, if◌then◌else◌, arith, inl, inr, Bool-cases,
}
use nexum_core.Transport.Security.Bits.{or_zero, zero_or, xor_zero, xor_self}

-- The buffer that a text is copied to: zeros behind it.
abbrev pub byte_at : List ℕ → ℕ → ℕ
byte_at [] i = 0
byte_at (b ∷ bs) zero = b
byte_at (b ∷ bs) (suc i) = byte_at bs i

-- `for idx in 0..N`, `k` rounds from `idx`.
diff_from : ℕ → ℕ → ℕ → List ℕ → List ℕ → ℕ
diff_from zero idx diff a b = diff
diff_from (suc k) idx diff a b =
    diff_from k (idx + 1) (bit_or diff (bit_xor (byte_at a idx) (byte_at b idx))) a b

unfoldable pub timing_safe_eq_fixed : ℕ → List ℕ → List ℕ → Bool
unfolding diff_from
timing_safe_eq_fixed n a b =
    if ltb n (length a) || ltb n (length b)
    then false
    else diff_from n 0 (bit_xor (length a) (length b)) a b == 0

diff_from-zero :
    (k idx diff : ℕ) (a b : List ℕ)
    → diff_from k idx diff a b ≡ 0
    → (diff ≡ 0) × ((i : ℕ) → idx ≤ i → i < idx + k → byte_at a i ≡ byte_at b i)
unfolding diff_from
diff_from-zero zero idx diff a b h = (h, λ i p q. absurd (omega arith))
diff_from-zero (suc k) idx diff a b h =
    let here = bit_xor (byte_at a idx) (byte_at b idx) in
    let (now, later) = diff_from-zero k (idx + 1) (bit_or diff here) a b h in
    let (before, same) = or_zero diff here now in
    (before, λ i p q. ground (arith, xor_zero (byte_at a idx) (byte_at b idx) same, later i))

diff_from-same : (k idx : ℕ) (a : List ℕ) → diff_from k idx 0 a a ≡ 0
unfolding diff_from
diff_from-same zero idx a = refl
diff_from-same (suc k) idx a = rw (xor_self (byte_at a idx), zero_or) (diff_from-same k (idx + 1) a)

lists-eq :
    (a b : List ℕ)
    → length a ≡ length b
    → ((i : ℕ) → i < length a → byte_at a i ≡ byte_at b i)
    → a ≡ b
lists-eq [] [] e h = refl
lists-eq [] (y ∷ b) e h = absurd (omega arith)
lists-eq (x ∷ a) [] e h = absurd (omega arith)
lists-eq (x ∷ a) (y ∷ b) e h =
    let first : x ≡ y = h 0 (omega arith) in
    rw (first, lists-eq a b (omega arith) (λ i p. h (suc i) (omega arith)))

-- The comparison, which goes over the whole of two buffers of `n` bytes, says yes of two texts exactly if
-- they are the same and fit the buffers.
pub timing_safe_eq_lem :
    (n : ℕ) (a b : List ℕ) → (timing_safe_eq_fixed n a b ≡ true) ↔ ((a ≡ b) × (length a ≤ n))
unfolding timing_safe_eq_fixed
timing_safe_eq_lem n a b = (forward, backward)
  where
    forward : timing_safe_eq_fixed n a b ≡ true → (a ≡ b) × (length a ≤ n)
    forward h =
        let run = diff_from-zero n 0 (bit_xor (length a) (length b)) a b (ground arith) in
        let size = xor_zero (length a) (length b) run.0 in
        (lists-eq a b size (λ i p. run.1 i (omega arith) (ground arith)), ground arith)

    backward : (a ≡ b) × (length a ≤ n) → timing_safe_eq_fixed n a b ≡ true
    backward h =
        subst (λ c. timing_safe_eq_fixed n a c ≡ true) h.0
          (rw (xor_self (length a), diff_from-same n 0 a) (ground (arith, h.1)))
