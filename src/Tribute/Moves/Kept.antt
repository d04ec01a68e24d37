-- ===== src/Tribute/Moves/Kept.antt =====
-- tribute.cpp: a card that changes hands leaves one hand and comes to the other.

use gd_server.Base.{
  Bool-cases, [], arith, count, count-append, elem_iff, false, if◌then◌else◌, inl, inr, length, sym,
  true, ℕ, ℕ_discrete, ◌+◌, ◌<◌, ◌==◌, ◌∙◌, ◌∷◌, ◌≡◌, ◌≢◌, ◌⊎◌,
}
use gd_server.State.{GameState, Hand, PlayerState, add, contains, player, remove, set_player}
use gd_server.State.Hands.{IsHeld, contains_iff, count-remove, remove_iff}
use gd_server.State.Seats.{length-set_player, player-set_ne, player-set_self}
use gd_server.Tribute.Moves.{transfer_card}

pub count-add :
    (a : ℕ) (hand : Hand) (id : ℕ)
    → count a (add hand id) ≡ count a hand + (if id == a then 1 else 0)
unfolding add
count-add a hand id = ground (arith, count-append a hand (id ∷ []))

pub single-IsHeld : (hand : Hand) (id : ℕ) → contains hand (id ∷ []) ≡ true → IsHeld hand (id ∷ [])
single-IsHeld hand id h =
    λ a. ground (arith, (contains_iff hand (id ∷ [])).0 h a, (contains_iff hand (id ∷ [])).0 h id)

lost-single : (hand : Hand) (id : ℕ) → contains hand (id ∷ []) ≡ false → count id hand ≡ 0
unfolding contains
lost-single hand id h = ground (arith, elem_iff id hand)

-- The hands after the card is taken and given, with nothing checked.
moved-hands :
    (s : GameState) (i j : ℕ) (g t : PlayerState)
    → i ≢ j
    → i < length s.players
    → j < length s.players
    → (player (set_player (set_player s i g) j t) i ≡ g)
      × (player (set_player (set_player s i g) j t) j ≡ t)
      × (player (set_player s i g) j ≡ player s j)
      × ((x : ℕ) → (x ≡ i) ⊎ (x ≡ j) ⊎ (player (set_player (set_player s i g) j t) x ≡ player s x))
moved-hands s i j g t ne hi hj =
    let taken = set_player s i g in
    let long : j < length taken.players = rw (length-set_player s i g) hj in
    let ne' : j ≢ i = λ e. ne (sym e) in
    (
      player-set_ne taken j i t ne' ∙ player-set_self s i g hi,
      player-set_self taken j t long,
      player-set_ne s i j g ne,
      λ x. elim (ℕ_discrete i x) [
        | yes a ↦ inl (sym a)
        | no na ↦ elim (ℕ_discrete j x) [
          | yes b ↦ inr (inl (sym b))
          | no nb ↦ inr (inr (player-set_ne taken j x t nb ∙ player-set_ne s i x g na))
        ]
      ],
    )

-- A card that changes hands.
abbrev pub IsMoved : ℕ → Hand → Hand → Hand → Hand → Type 0
IsMoved id giver taker giver' taker' =
    (a : ℕ)
    → (count a giver ≡ count a giver' + (if id == a then 1 else 0))
      × (count a taker' ≡ count a taker + (if id == a then 1 else 0))

removed-IsMoved :
    (id : ℕ) (giver taker : Hand)
    → contains giver (id ∷ []) ≡ true
    → IsMoved id giver taker (remove giver (id ∷ [])).0 (add taker id)
removed-IsMoved id giver taker h a =
    let all = single-IsHeld giver id h in
    let ok' = (remove_iff giver (id ∷ [])).1 all in
    (ground (arith, (count-remove giver (id ∷ [])).0 ok' a), count-add a taker id)

-- A transfer between two seats of the table gives the card to the taker and takes it from the
-- giver; it does nothing where the card is 0 or the giver does not hold it. All other seats stay.
pub transfer_card_total :
    (s : GameState) (i j id : ℕ)
    → i ≢ j
    → i < length s.players
    → j < length s.players
    → (((id ≡ 0) ⊎ (count id (player s i).hand ≡ 0)) × (transfer_card s i j id ≡ s))
      ⊎ (0 < id)
        × IsMoved id
            (player s i).hand
            (player s j).hand
            (player (transfer_card s i j id) i).hand
            (player (transfer_card s i j id) j).hand
        × ((x : ℕ) → (x ≡ i) ⊎ (x ≡ j) ⊎ (player (transfer_card s i j id) x ≡ player s x))
unfolding transfer_card
transfer_card_total s i j id ne hi hj =
    let hand = (player s i).hand in
    let giver = record (player s i) { hand = (remove hand (id ∷ [])).0 } in
    let taken = set_player s i giver in
    let taker = record (player taken j) { hand = add (player taken j).hand id } in
    let (at_i, at_j, old_j, others) = moved-hands s i j giver taker ne hi hj in
    elim (ℕ_discrete id 0) [
      | yes z ↦ inl (inl z, ground arith)
      | no nz ↦
          let off : (id == 0) ≡ false = ground arith in
          elim (Bool-cases (contains hand (id ∷ []))) [
            | inr lost ↦ inl (inr (lost-single hand id lost), ground arith)
            | inl held ↦ inr (
              omega arith,
              rw (off, held, at_i, at_j, old_j) (removed-IsMoved id hand (player s j).hand held),
              rw (off, held) others,
            )
          ]
    ]
