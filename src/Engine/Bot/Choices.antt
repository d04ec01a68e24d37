-- ===== src/Engine/Bot/Choices.antt =====
-- The masks of `choosePlay` reach every choice of cards from a hand.
use native.Mathlib.Nat.{zero-div, add-mul, mul_assoc, two-pow-succ, div-eq_of_lt, mul-add-div_right}
use gd_server.Base.{
  Bool, Bool-cases, List, [], ap, arith, false, if◌then◌else◌, inl, inr, length, refl, suc, sym,
  true, zero, ℕ, ℕ_discrete, ◌%◌, ◌*◌, ◌+◌, ◌/◌, ◌<◌, ◌==◌, ◌^◌, ◌∙◌, ◌∷◌, ◌≡◌, ◌≢◌,
}
use gd_server.Engine.Bot.{bit, subset_of}

-- Some cards of a hand, each at most as often as it is there, in the order of the hand.
pub data Choice : List ℕ → List ℕ → Type 0 where
  no_card : Choice [] []
  takes : {ids hand : List ℕ} (id : ℕ) → Choice ids hand → Choice (id ∷ ids) (id ∷ hand)
  leaves : {ids hand : List ℕ} (id : ℕ) → Choice ids hand → Choice ids (id ∷ hand)

pub subset_of-Choice : (mask i : ℕ) (hand : List ℕ) → Choice (subset_of mask hand i) hand
unfolding subset_of
subset_of-Choice mask i [] = no_card
subset_of-Choice mask i (id ∷ hand) =
    let rest = subset_of-Choice mask (i + 1) hand in
    elim (Bool-cases (bit mask i)) [
      | inl in_mask ↦ rw in_mask (takes id rest)
      | inr out ↦ rw out (leaves id rest)
    ]

pow_pos : (n : ℕ) → 0 < 2 ^ n
pow_pos zero = omega arith
pow_pos (suc n) = omega (arith, pow_pos n)

pow_next : (i : ℕ) → 2 ^ (i + 1) ≡ 2 * 2 ^ i
pow_next i =
    let e : i + 1 ≡ suc i = omega arith in
    let double = two-pow-succ i in ap (λ (k : ℕ). 2 ^ k) e ∙ omega (arith, double)

shifted : (b m i r : ℕ) → (b + m * 2) * 2 ^ i + r ≡ m * 2 ^ (i + 1) + (b * 2 ^ i + r)
shifted b m i r =
    let above = ap (λ (q : ℕ). m * q) (pow_next i) in
    omega (arith, add-mul b (m * 2) (2 ^ i), mul_assoc m 2 (2 ^ i), above)

-- The bit of a mask at a place, with the mask above that place and the mask below it.
bit_at : (m i r : ℕ) → r < 2 ^ i → bit (m * 2 ^ i + r) i ≡ (m % 2 == 1)
bit_at m i r h =
    let e : (m * 2 ^ i + r) / 2 ^ i ≡ m =
      mul-add-div_right (pow_pos i) m r ∙ ap (λ k. m + k) (div-eq_of_lt h) ∙ omega arith in
    ap (λ (k : ℕ). k % 2 == 1) e

subset_of-cons :
    (mask i id : ℕ) (hand : List ℕ) (b : Bool)
    → bit mask i ≡ b
    → subset_of mask (id ∷ hand) i
      ≡ (if b then id ∷ subset_of mask hand (i + 1) else subset_of mask hand (i + 1))
unfolding subset_of
subset_of-cons mask i id hand b e = rw e refl

-- A mask for a choice, behind any lower bits.
record HasMask (ids hand : List ℕ) : Type 0 where
  mask : ℕ
  small : mask < 2 ^ length hand
  gives : (i r : ℕ) → r < 2 ^ i → subset_of (mask * 2 ^ i + r) hand i ≡ ids

Choice-HasMask : {ids hand : List ℕ} → Choice ids hand → HasMask ids hand
unfolding subset_of
Choice-HasMask no_card = record { mask = 0; small = omega arith; gives = λ i r h. refl }
Choice-HasMask (takes {ids = ids} {hand = hand} id c) =
    let rest = Choice-HasMask c in
    record {
      mask = 1 + rest.mask * 2;
      small = omega (arith, rest.small, two-pow-succ (length hand));
      gives = λ i r h.
          subset_of-cons _ i id hand true (bit_at (1 + rest.mask * 2) i r h ∙ ground arith)
          ∙ ap (λ (xs : List ℕ). id ∷ xs)
              (ap (λ (m : ℕ). subset_of m hand (i + 1)) (shifted 1 rest.mask i r)
                ∙ rest.gives (i + 1) (1 * 2 ^ i + r) (omega (arith, h, pow_next i)));
    }
Choice-HasMask (leaves {ids = ids} {hand = hand} id c) =
    let rest = Choice-HasMask c in
    record {
      mask = 0 + rest.mask * 2;
      small = omega (arith, rest.small, two-pow-succ (length hand));
      gives = λ i r h.
          subset_of-cons _ i id hand false (bit_at (0 + rest.mask * 2) i r h ∙ ground arith)
          ∙ ap (λ (m : ℕ). subset_of m hand (i + 1)) (shifted 0 rest.mask i r)
          ∙ rest.gives (i + 1) (0 * 2 ^ i + r) (omega (arith, h, pow_next i));
    }

subset_zero : (hand : List ℕ) (i : ℕ) → subset_of 0 hand i ≡ []
unfolding subset_of
subset_zero [] i = refl
subset_zero (id ∷ hand) i =
    let none_set : bit 0 i ≡ false = ap (λ (k : ℕ). k % 2 == 1) (zero-div (2 ^ i)) in
    subset_of-cons 0 i id hand false none_set ∙ subset_zero hand (i + 1)

-- Every choice of at least one card is the subset of a mask that the loop tries.
pub Choice-mask :
    (ids hand : List ℕ)
    → Choice ids hand
    → ids ≢ []
    → (m : ℕ) × (0 < m) × (m < 2 ^ length hand) × (ids ≡ subset_of m hand 0)
Choice-mask ids hand c some_card =
    let found = Choice-HasMask c in
    let shift : found.mask * 2 ^ 0 + 0 ≡ found.mask = omega arith in
    let given : subset_of found.mask hand 0 ≡ ids =
      ap (λ (m : ℕ). subset_of m hand 0) (sym shift) ∙ found.gives 0 0 (omega arith) in
    (
      found.mask,
      elim (ℕ_discrete found.mask 0) [
        | yes z ↦ absurd (some_card (sym given ∙ rw z (subset_zero hand 0)))
        | no nz ↦ omega arith
      ],
      found.small,
      sym given,
    )
