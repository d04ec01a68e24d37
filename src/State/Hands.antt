-- ===== src/State/Hands.antt =====
-- What `Hand::remove` and `Hand::contains` do to the cards held.
use gd_server.Base.{
  Bool, Bool-cases, List, Option, [], ap, arith, count, count-erase, elem, elem_iff, erase, false,
  if◌then◌else◌, inl, inr, none, refl, some, true, ℕ, ◌+◌, ◌<◌, ◌↔◌, ◌∷◌, ◌≡◌, ◌≤◌, ◌⊎◌,
}
use gd_server.State.{Hand, contains, remove, take_out}

if_parts : (a b : Bool) → (if a then b else false) ≡ true → (a ≡ true) × (b ≡ true)
if_parts a b h = ground arith

abbrev IsTaken : Hand → List ℕ → Option Hand → Type 0
IsTaken hand ids none = (a : ℕ) × (count a hand < count a ids)
IsTaken hand ids (some rest) = (a : ℕ) → count a hand ≡ count a ids + count a rest

take_out-IsTaken : (hand : Hand) (ids : List ℕ) → IsTaken hand ids (take_out hand ids)
unfolding take_out
take_out-IsTaken hand [] = λ a. omega arith
take_out-IsTaken hand (id ∷ ids) =
    let rest = take_out-IsTaken (erase hand id) ids in
    elim (Bool-cases (elem id hand)) [
      | inl held ↦ rw (held, take_out) (after held (take_out (erase hand id) ids) rest)
      | inr lost ↦ rw (lost, take_out) (id, ground (arith, elem_iff id hand))
    ]
  where
    after :
        elem id hand ≡ true
        → (r : Option Hand) → IsTaken (erase hand id) ids r
        → IsTaken hand (id ∷ ids) r
    after held none (a, short) = (a, omega (arith, count-erase a id hand held))
    after held (some rest) kept = λ a. omega (arith, count-erase a id hand held, kept a)

abbrev pub IsHeld : Hand → List ℕ → Type 0
IsHeld hand ids = (a : ℕ) → count a ids ≤ count a hand

remove_cases :
    (hand : Hand) (ids : List ℕ)
    → (¬ IsHeld hand ids × (remove hand ids ≡ (hand, false)))
      ⊎ (((a : ℕ) → count a hand ≡ count a ids + count a (remove hand ids).0)
          × ((remove hand ids).1 ≡ true))
unfolding remove
remove_cases hand ids = cases (take_out hand ids) refl (take_out-IsTaken hand ids)
  where
    cases :
        (r : Option Hand)
        → take_out hand ids ≡ r
        → IsTaken hand ids r
        → (¬ IsHeld hand ids × (remove hand ids ≡ (hand, false)))
          ⊎ (((a : ℕ) → count a hand ≡ count a ids + count a (remove hand ids).0)
              × ((remove hand ids).1 ≡ true))
    cases none e (a, short) = inl (λ all. omega (arith, all a), rw (e, remove))
    cases (some rest) e kept = inr (λ a. rw (e, remove) (kept a), rw (e, remove))

-- `remove` succeeds exactly when the hand holds every id as often as the list names it.
pub remove_iff : (hand : Hand) (ids : List ℕ) → ((remove hand ids).1 ≡ true) ↔ IsHeld hand ids
remove_iff hand ids = elim (remove_cases hand ids) [
  | inl (short, e) ↦ (λ h. ground arith, λ all. absurd (short all))
  | inr (split, e) ↦ (λ h a. omega (arith, split a), λ all. e)
]

-- A removal that succeeds takes just the named cards away, one that fails takes none.
pub count-remove :
    (hand : Hand) (ids : List ℕ)
    → ((remove hand ids).1 ≡ true
        → (a : ℕ) → count a hand ≡ count a ids + count a (remove hand ids).0)
      × ((remove hand ids).1 ≡ false → (remove hand ids).0 ≡ hand)
count-remove hand ids = elim (remove_cases hand ids) [
  | inl (short, e) ↦ (λ h. ground arith, λ h. ap (λ r. r.0) e)
  | inr (split, e) ↦ (λ h. split, λ h. ground arith)
]

pub remove_short : (hand : Hand) (ids : List ℕ) → ¬ IsHeld hand ids → (remove hand ids).0 ≡ hand
remove_short hand ids short = elim (remove_cases hand ids) [
  | inl (lacks, e) ↦ ap (λ r. r.0) e
  | inr (split, e) ↦ absurd (short (λ a. omega (arith, split a)))
]

-- `contains` asks for each id alone, however often the list names it.
pub contains_iff :
    (hand : Hand) (ids : List ℕ)
    → (contains hand ids ≡ true) ↔ ((a : ℕ) → 0 < count a ids → 0 < count a hand)
unfolding contains
contains_iff hand [] = (λ e a h. omega arith, λ h. refl)
contains_iff hand (id ∷ ids) = (
  λ e a h. ground (
    arith,
    (elem_iff id hand).0 (if_parts (elem id hand) (contains hand ids) e).0,
    (contains_iff hand ids).0 (if_parts (elem id hand) (contains hand ids) e).1 a,
  ),
  λ all.
      let held : elem id hand ≡ true = (elem_iff id hand).1 (all id (ground arith)) in
      rw held ((contains_iff hand ids).1 (λ a h. all a (omega arith))),
)
