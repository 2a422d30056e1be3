-- ===== src/Common/Rows.antt =====
-- A table of a database as the list of its rows, and the statements that the program makes of it.
use Prim.Native.Nat.{ℕ, suc, ◌+◌, ◌≤◌}
use mathlib.Core.Path.{◌≡◌, refl, subst}
use mathlib.Core.Logic.{inl, inr}
use mathlib.Core.Bool.{Bool, true, false, ◌||◌}
use mathlib.Core.Option.{Option, none, some}
use mathlib.Core.List.{List, [], ◌∷◌, ◌++◌}
use native.Mathlib.Omega.{arith}
use nexum_core.Common.Tests.{if◌then◌else◌, length, Bool-cases}

module _ {ℓ} {A : Type ℓ} where
  -- `SELECT … WHERE p LIMIT 1`
  unfoldable pub find_row : (A → Bool) → List A → Option A
  find_row p [] = none
  find_row p (r ∷ rows) = if p r then some r else find_row p rows

  -- `SELECT 1 … WHERE p`
  unfoldable pub any_row : (A → Bool) → List A → Bool
  any_row p [] = false
  any_row p (r ∷ rows) = p r || any_row p rows

  -- `SELECT COUNT(1) … WHERE p`
  unfoldable pub count_rows : (A → Bool) → List A → ℕ
  count_rows p [] = 0
  count_rows p (r ∷ rows) = let rest = count_rows p rows in if p r then suc rest else rest

  -- `UPDATE … SET f WHERE p`
  unfoldable pub update_rows : (A → Bool) → (A → A) → List A → List A
  update_rows p f [] = []
  update_rows p f (r ∷ rows) = (if p r then f r else r) ∷ update_rows p f rows

  -- `DELETE … WHERE p`
  unfoldable pub delete_rows : (A → Bool) → List A → List A
  delete_rows p [] = []
  delete_rows p (r ∷ rows) = let rest = delete_rows p rows in if p r then rest else r ∷ rest

  -- `INSERT … ON CONFLICT(…) DO UPDATE SET f`: the rows that `p` finds are in conflict with `new`.
  unfoldable pub upsert_row : (A → Bool) → (A → A) → A → List A → List A
  upsert_row p f new rows = if any_row p rows then update_rows p f rows else rows ++ (new ∷ [])

  pub any_row-append :
      (p : A → Bool) (rows : List A) (new : A)
      → any_row p (rows ++ (new ∷ [])) ≡ (any_row p rows || p new)
  unfolding any_row
  any_row-append p [] new = ground arith
  any_row-append p (r ∷ rows) new = ground (arith, any_row-append p rows new)

  pub count_rows-append :
      (p : A → Bool) (rows : List A) (new : A)
      → count_rows p (rows ++ (new ∷ [])) ≡ count_rows p rows + (if p new then 1 else 0)
  unfolding count_rows
  count_rows-append p [] new = ground arith
  count_rows-append p (r ∷ rows) new = ground (arith, count_rows-append p rows new)

  pub find_row-append :
      (p : A → Bool) (rows : List A) (new : A)
      → find_row p (rows ++ (new ∷ []))
        ≡ (if any_row p rows then find_row p rows else if p new then some new else none)
  unfolding find_row any_row
  find_row-append p [] new = ground arith
  find_row-append p (r ∷ rows) new = ground (arith, find_row-append p rows new)

  -- No row is counted where none is found.
  pub count_rows-none :
      (p : A → Bool) (rows : List A) → any_row p rows ≡ false → count_rows p rows ≡ 0
  unfolding any_row count_rows
  count_rows-none p [] h = refl
  count_rows-none p (r ∷ rows) h = ground (arith, count_rows-none p rows)

  pub length-update_rows :
      (p : A → Bool) (f : A → A) (rows : List A) → length (update_rows p f rows) ≡ length rows
  unfolding update_rows
  length-update_rows p f [] = refl
  length-update_rows p f (r ∷ rows) = ground (arith, length-update_rows p f rows)

  -- A predicate that the update keeps finds the same rows.
  pub count_rows-update_rows :
      (q p : A → Bool) (f : A → A) (rows : List A)
      → ((r : A) → q (f r) ≡ q r)
      → count_rows q (update_rows p f rows) ≡ count_rows q rows
  unfolding count_rows update_rows
  count_rows-update_rows q p f [] h = refl
  count_rows-update_rows q p f (r ∷ rows) h =
      ground (arith, h r, count_rows-update_rows q p f rows h)

  pub any_row-update_rows :
      (q p : A → Bool) (f : A → A) (rows : List A)
      → ((r : A) → q (f r) ≡ q r)
      → any_row q (update_rows p f rows) ≡ any_row q rows
  unfolding any_row update_rows
  any_row-update_rows q p f [] h = refl
  any_row-update_rows q p f (r ∷ rows) h = ground (arith, h r, any_row-update_rows q p f rows h)

  pub count_rows-upsert_row :
      (q p : A → Bool) (f : A → A) (new : A) (rows : List A)
      → ((r : A) → q (f r) ≡ q r)
      → count_rows q (upsert_row p f new rows)
        ≡ count_rows q rows + (if any_row p rows then 0 else if q new then 1 else 0)
  unfolding upsert_row
  count_rows-upsert_row q p f new rows h =
      ground (arith, count_rows-update_rows q p f rows h, count_rows-append q rows new)

  pub any_row-upsert_row :
      (q p : A → Bool) (f : A → A) (new : A) (rows : List A)
      → ((r : A) → q (f r) ≡ q r)
      → any_row q (upsert_row p f new rows)
        ≡ (if any_row p rows then any_row q rows else any_row q rows || q new)
  unfolding upsert_row
  any_row-upsert_row q p f new rows h =
      ground (arith, any_row-update_rows q p f rows h, any_row-append q rows new)

  -- An update of no row.
  pub update_rows-none :
      (p : A → Bool) (f : A → A) (rows : List A)
      → count_rows p rows ≤ 0
      → update_rows p f rows ≡ rows
  unfolding update_rows count_rows
  update_rows-none p f [] h = refl
  update_rows-none p f (r ∷ rows) h = ground (arith, update_rows-none p f rows)

  find_row-none : (p : A → Bool) (rows : List A) → any_row p rows ≡ false → find_row p rows ≡ none
  unfolding any_row find_row
  find_row-none p [] h = refl
  find_row-none p (r ∷ rows) h = ground (arith, find_row-none p rows)

  -- The row that an update leaves under the same key.
  abbrev pub updated : (A → A) → A → Option A → A
  updated f new none = new
  updated f new (some r) = f r

  find_row-update_same :
      (p : A → Bool) (f : A → A) (new : A) (rows : List A)
      → ((r : A) → p (f r) ≡ p r)
      → any_row p rows ≡ true
      → find_row p (update_rows p f rows) ≡ some (updated f new (find_row p rows))
  unfolding any_row find_row update_rows
  find_row-update_same p f new [] h found = absurd (ground arith)
  find_row-update_same p f new (r ∷ rows) h found =
      ground (arith, h r, find_row-update_same p f new rows h)

  find_row-update_other :
      (q p : A → Bool) (f : A → A) (rows : List A)
      → ((r : A) → q (f r) ≡ q r)
      → ((r : A) → p r ≡ true → q r ≡ false)
      → find_row q (update_rows p f rows) ≡ find_row q rows
  unfolding find_row update_rows
  find_row-update_other q p f [] h apart = refl
  find_row-update_other q p f (r ∷ rows) h apart =
      ground (arith, h r, apart r, find_row-update_other q p f rows h apart)

  -- What is upserted is found under its key …
  pub find_row-upsert_same :
      (p : A → Bool) (f : A → A) (new : A) (rows : List A)
      → ((r : A) → p (f r) ≡ p r)
      → p new ≡ true
      → find_row p (upsert_row p f new rows) ≡ some (updated f new (find_row p rows))
  unfolding upsert_row
  find_row-upsert_same p f new rows h hit =
      ground (
        arith,
        find_row-none p rows,
        find_row-append p rows new,
        find_row-update_same p f new rows h,
      )

  -- … and what is found under another key stays.
  pub find_row-upsert_other :
      (q p : A → Bool) (f : A → A) (new : A) (rows : List A)
      → ((r : A) → q (f r) ≡ q r)
      → ((r : A) → p r ≡ true → q r ≡ false)
      → q new ≡ false
      → find_row q (upsert_row p f new rows) ≡ find_row q rows
  unfolding upsert_row
  find_row-upsert_other q p f new rows h apart miss = ground (
    arith,
    find_row-none q rows,
    find_row-append q rows new,
    find_row-update_other q p f rows h apart,
  )

  -- What a search finds is what it searched for.
  pub find_row-hit : (p : A → Bool) (rows : List A) (r : A) → find_row p rows ≡ some r → p r ≡ true
  unfolding find_row
  find_row-hit p [] r h = absurd (ground arith)
  find_row-hit p (x ∷ rows) r h = elim (Bool-cases (p x)) [
    | inl hit ↦ ground arith
    | inr miss ↦ ground (arith, find_row-hit p rows r)
  ]

module _ {ℓ κ} {A : Type ℓ} (P : A → Type κ) where
  abbrev pub EveryRow : List A → Type κ
  EveryRow [] = Unit
  EveryRow (r ∷ rows) = P r × EveryRow rows

  EveryRow-append : (rows : List A) (new : A) → EveryRow rows → P new → EveryRow (rows ++ new ∷ [])
  EveryRow-append [] new h n = (n, tt)
  EveryRow-append (r ∷ rows) new h n = (h.0, EveryRow-append rows new h.1 n)

  EveryRow-update :
      (p : A → Bool) (f : A → A) (rows : List A)
      → ((r : A) → P r → P (f r))
      → EveryRow rows
      → EveryRow (update_rows p f rows)
  unfolding update_rows
  EveryRow-update p f [] keep h = tt
  EveryRow-update p f (r ∷ rows) keep h = elim (Bool-cases (p r)) [
    | inl hit ↦ rw hit (keep r h.0, EveryRow-update p f rows keep h.1)
    | inr miss ↦ rw miss (h.0, EveryRow-update p f rows keep h.1)
  ]

  -- An upsert keeps what holds of every row, if the new row and the update have it.
  pub EveryRow-upsert :
      (p : A → Bool) (f : A → A) (new : A) (rows : List A)
      → ((r : A) → P r → P (f r))
      → P new
      → EveryRow rows
      → EveryRow (upsert_row p f new rows)
  unfolding upsert_row
  EveryRow-upsert p f new rows keep n h = elim (Bool-cases (any_row p rows)) [
    | inl hit ↦ rw hit (EveryRow-update p f rows keep h)
    | inr miss ↦ rw miss (EveryRow-append rows new h n)
  ]

  pub EveryRow-find_row :
      (p : A → Bool) (rows : List A) (r : A) → EveryRow rows → find_row p rows ≡ some r → P r
  unfolding find_row
  EveryRow-find_row p [] r h e = absurd (ground arith)
  EveryRow-find_row p (x ∷ rows) r h e = elim (Bool-cases (p x)) [
    | inl hit ↦ let same : x ≡ r = ground arith in subst P same h.0
    | inr miss ↦ EveryRow-find_row p rows r h.1 (ground arith)
  ]
