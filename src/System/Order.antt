-- ===== src/System/Order.antt =====
-- Ids that only go up: those in flight, those confirmed, and those of the queue among them.
use factoryfleet.Base.{
  ℕ, zero, suc, ◌≤◌, ◌<◌, ◌≡◌, refl, true, false, List, [], ◌∷◌, map, arith, take, drop, contains,
  All, ◌==◌, ==_iff, Bool-cases, inl, inr, ◌⊎◌,
}
use factoryfleet.Store.Confirm.{AreEntriesOf}
use factoryfleet.Store.Order.{Ascends}
use factoryfleet.Store.Table.{OutboxRow, ids_of, delete_ids}
use factoryfleet.Store.Types.{OutboxEntry}

abbrev pub entry_ids : List OutboxEntry → List ℕ
entry_ids = map (λ e. e.id)

-- The ids rise strictly, from `low` on.
abbrev pub Climbs : ℕ → List ℕ → Type 0
Climbs low [] = Unit
Climbs low (i ∷ is) = (low ≤ i) × Climbs (suc i) is

-- The newest of the confirmed ids, which stand with the newest first.
abbrev pub newest : List ℕ → ℕ
newest [] = 0
newest (i ∷ is) = i

-- No id is confirmed after a larger one.
abbrev pub IsInOrder : List ℕ → Type 0
IsInOrder [] = Unit
IsInOrder (i ∷ is) = (newest is ≤ i) × IsInOrder is

pub Climbs-low : (low low' : ℕ) (is : List ℕ) → low' ≤ low → Climbs low is → Climbs low' is
Climbs-low low low' [] h c = tt
Climbs-low low low' (i ∷ is) h c = (omega arith, c.1)

pub Climbs-contains : (low i : ℕ) (is : List ℕ) → Climbs low is → contains i is ≡ true → low ≤ i
Climbs-contains low i [] c h = absurd (ground (arith, h))
Climbs-contains low i (j ∷ is) c h = elim (Bool-cases (i == j)) [
  | inl same ↦ omega (arith, c.0, (==_iff i j).0 same)
  | inr other ↦ omega (arith, c.0, Climbs-contains (suc j) i is c.1 (ground (arith, h, other)))
]

pub Climbs-take :
    (n low : ℕ) (rows : List OutboxRow) (high : ℕ)
    → Ascends low rows high
    → Climbs (suc low) (ids_of (take n rows))
Climbs-take zero low rows high a = tt
Climbs-take (suc n) low [] high a = tt
Climbs-take (suc n) low (r ∷ rows) high a = (omega (arith, a.0), Climbs-take n r.id rows high a.1)

-- The front of a table whose ids are at least `low`.
pub Climbs-front :
    (n low bottom : ℕ) (rows : List OutboxRow) (high : ℕ)
    → Ascends bottom rows high
    → All (λ r. low ≤ r.id) rows
    → Climbs low (ids_of (take n rows))
Climbs-front zero low bottom rows high a h = tt
Climbs-front (suc n) low bottom [] high a h = tt
Climbs-front (suc n) low bottom (r ∷ rows) high a h = (h.0, Climbs-take n r.id rows high a.1)

pub ids-AreEntriesOf :
    (es : List OutboxEntry) (rows : List OutboxRow)
    → AreEntriesOf es rows
    → entry_ids es ≡ ids_of rows
ids-AreEntriesOf [] [] fit = refl
ids-AreEntriesOf [] (r ∷ rows) fit = absurd fit
ids-AreEntriesOf (e ∷ es) [] fit = absurd fit
ids-AreEntriesOf (e ∷ es) (r ∷ rows) fit = ground (arith, fit.0.0, ids-AreEntriesOf es rows fit.1)

module _ {ℓ κ} {A : Type ℓ} {P Q : A → Type κ} where
  pub All-mono : (xs : List A) → ((x : A) → P x → Q x) → All P xs → All Q xs
  All-mono [] f h = tt
  All-mono (x ∷ xs) f h = (f x h.0, All-mono xs f h.1)

pub All-both {ℓ κ} :
    {A : Type ℓ} {P Q R : A → Type κ} (xs : List A)
    → ((x : A) → P x → Q x → R x)
    → All P xs
    → All Q xs
    → All R xs
All-both [] f h k = tt
All-both (x ∷ xs) f h k = (f x h.0 k.0, All-both xs f h.1 k.1)

pub All-drop {ℓ κ} :
    {A : Type ℓ} (P : A → Type κ) (n : ℕ) (xs : List A) → All P xs → All P (drop n xs)
All-drop P zero xs h = h
All-drop P (suc n) [] h = tt
All-drop P (suc n) (x ∷ xs) h = All-drop P n xs h.1

-- What is left after a deletion was there and is not named.
pub All-delete_ids :
    (P : OutboxRow → Type 0) (ids : List ℕ) (rows : List OutboxRow)
    → All P rows
    → All (λ r. P r × (contains r.id ids ≡ false)) (delete_ids ids rows)
unfolding delete_ids
All-delete_ids P ids [] h = tt
All-delete_ids P ids (r ∷ rows) h = elim (Bool-cases (contains r.id ids)) [
  | inl named ↦ rw named (All-delete_ids P ids rows h.1)
  | inr kept ↦ rw kept ((h.0, kept), All-delete_ids P ids rows h.1)
]

above :
    (low : ℕ) (rows : List OutboxRow) (high : ℕ)
    → Ascends low rows high
    → All (λ r. low < r.id) rows
above low [] high a = tt
above low (r ∷ rows) high a =
    (a.0, All-mono rows (λ q h. omega (arith, h, a.0)) (above r.id rows high a.1))

-- An id is among these, or above all of them.
abbrev pub IsPlaced : List ℕ → ℕ → Type 0
IsPlaced is i = (contains i is ≡ true) ⊎ All (λ j. j < i) is

IsPlaced-cons : (j i : ℕ) (is : List ℕ) → j < i → IsPlaced is i → IsPlaced (j ∷ is) i
IsPlaced-cons j i is h (inl there) = inl (ground (arith, there))
IsPlaced-cons j i is h (inr beyond) = inr (h, beyond)

nowhere : (rows : List OutboxRow) → All (λ r. IsPlaced [] r.id) rows
nowhere [] = tt
nowhere (r ∷ rows) = (inr tt, nowhere rows)

pub All-IsPlaced :
    (n low : ℕ) (rows : List OutboxRow) (high : ℕ)
    → Ascends low rows high
    → All (λ r. IsPlaced (ids_of (take n rows)) r.id) rows
All-IsPlaced zero low rows high a = nowhere rows
All-IsPlaced (suc n) low [] high a = tt
All-IsPlaced (suc n) low (r ∷ rows) high a = (
  inl (ground arith),
  All-both rows (λ q h k. IsPlaced-cons r.id q.id _ h k) (above r.id rows high a.1)
      (All-IsPlaced n r.id rows high a.1),
)

Ascends-le : (low : ℕ) (rows : List OutboxRow) (high : ℕ) → Ascends low rows high → low ≤ high
Ascends-le low [] high a = a
Ascends-le low (r ∷ rows) high a = omega (arith, a.0, Ascends-le r.id rows high a.1)

pub Ascends-take :
    (n low : ℕ) (rows : List OutboxRow) (high : ℕ)
    → Ascends low rows high
    → All (λ i. i ≤ high) (ids_of (take n rows))
Ascends-take zero low rows high a = tt
Ascends-take (suc n) low [] high a = tt
Ascends-take (suc n) low (r ∷ rows) high a =
    (Ascends-le r.id rows high a.1, Ascends-take n r.id rows high a.1)
