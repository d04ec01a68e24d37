-- ===== src/Tribute/Round/Kept.antt =====
-- The transfers of a tribute neither create nor lose a card.

use gd_server.Base.{
  All, Bool-cases, List, Option, [], arith, count, get_or, inl, inr, length, length-set, refl, set,
  subst, suc, sym, true, zero, ℕ, ◌+◌, ◌<◌, ◌==◌, ◌∙◌, ◌∷◌, ◌≡◌,
}
use gd_server.State.{
  GameState, PlayerState, add, contains, empty_player, player, remove, set_player,
}
use gd_server.State.Hands.{count-remove, remove_iff}
use gd_server.Tribute.Data.{TributeTransfer}
use gd_server.Tribute.Moves.{
  PendingTribute, comes_first, hand_over, insert_tribute, sort_tributes, transfer_card,
}
use gd_server.Tribute.Moves.Kept.{count-add, single-IsHeld}

-- How often a card is held at the table.
abbrev pub held_in : List PlayerState → ℕ → ℕ
held_in [] a = 0
held_in (p ∷ ps) a = count a p.hand + held_in ps a

held_in-set :
    (ps : List PlayerState) (k a : ℕ) (p : PlayerState)
    → k < length ps
    → held_in (set ps k p) a + count a (get_or ps k empty_player).hand
      ≡ held_in ps a + count a p.hand
held_in-set [] k a p h = elim h [ ]
held_in-set (q ∷ ps) zero a p h = omega arith
held_in-set (q ∷ ps) (suc k) a p h = omega (arith, held_in-set ps k a p (omega arith))

-- Only a seat of the table has cards.
contains-inside :
    (ps : List PlayerState) (k id : ℕ)
    → contains (get_or ps k empty_player).hand (id ∷ []) ≡ true
    → k < length ps
unfolding contains
contains-inside [] k id h = absurd (cc h)
contains-inside (q ∷ ps) zero id h = omega arith
contains-inside (q ∷ ps) (suc k) id h = omega (arith, contains-inside ps k id h)

moved-held :
    (s : GameState) (i j id a : ℕ)
    → j < length s.players
    → contains (player s i).hand (id ∷ []) ≡ true
    → (held_in
          (set
            (set s.players i
              (record (player s i) { hand = (remove (player s i).hand (id ∷ [])).0 }))
            j
            (record (player
              (set_player s i
                (record (player s i) { hand = (remove (player s i).hand (id ∷ [])).0 }))
              j) {
                hand =
                    add
                      (player
                        (set_player s i
                          (record (player s i) { hand = (remove (player s i).hand (id ∷ [])).0 }))
                        j).hand
                      id;
              }))
          a
        ≡ held_in s.players a)
moved-held s i j id a inside has =
    let giver = player s i in
    let p = record giver { hand = (remove giver.hand (id ∷ [])).0 } in
    let taker = player (set_player s i p) j in
    let q = record taker { hand = add taker.hand id } in
    let taken = (remove_iff giver.hand (id ∷ [])).1 (single-IsHeld giver.hand id has) in
    let there : i < length s.players = contains-inside s.players i id has in
    let here : j < length (set s.players i p) = rw (length-set s.players i p) inside in
    ground (
      arith,
      held_in-set s.players i a p there,
      held_in-set (set s.players i p) j a q here,
      count-add a taker.hand id,
      (count-remove giver.hand (id ∷ [])).0 taken a,
    )

pub transfer-held :
    (s : GameState) (i j id a : ℕ)
    → j < length s.players
    → (held_in (transfer_card s i j id).players a ≡ held_in s.players a)
      × (length (transfer_card s i j id).players ≡ length s.players)
unfolding transfer_card
transfer-held s i j id a inside = elim (Bool-cases (id == 0)) [
  | inl zero_id ↦ rw (transfer_card, zero_id) (refl, refl)
  | inr real ↦ elim (Bool-cases (contains (player s i).hand (id ∷ []))) [
    | inr lacks ↦ rw (transfer_card, real, lacks) (refl, refl)
    | inl has ↦
        rw (transfer_card, real, has)
          (
            moved-held s i j id a inside has,
            length-set (set s.players i _) j _ ∙ length-set s.players i _,
          )
  ]
]

-- All seats are at the table.
abbrev pub AllSeats : GameState → List ℕ → Type 0
AllSeats s seats = All (λ (k : ℕ). k < length s.players) seats

abbrev pub GivesInside : ℕ → List PendingTribute → Type 0
GivesInside n ps = All (λ (p : PendingTribute). p.from_seat < n) ps

insert-inside :
    (head : Option ℕ) (m n : ℕ) (p : PendingTribute) (ps : List PendingTribute)
    → p.from_seat < n
    → GivesInside n ps
    → GivesInside n (insert_tribute head m p ps)
unfolding insert_tribute
insert-inside head m n p [] h a = (h, tt)
insert-inside head m n p (q ∷ ps) h (b, a) = elim (Bool-cases (comes_first head m q p)) [
  | inl first ↦ rw first (b, insert-inside head m n p ps h a)
  | inr later ↦ rw later (h, (b, a))
]

pub sort-inside :
    (head : Option ℕ) (m n : ℕ) (ps : List PendingTribute)
    → GivesInside n ps
    → GivesInside n (sort_tributes head m ps)
unfolding sort_tributes
sort-inside head m n [] a = tt
sort-inside head m n (p ∷ ps) (h, a) =
    insert-inside head m n p (sort_tributes head m ps) h (sort-inside head m n ps a)

pub record IsHanded (s t : GameState) (a : ℕ) (ts : List TributeTransfer) : Type 0 where
  pub held : held_in t.players a ≡ held_in s.players a
  pub room : length t.players ≡ length s.players
  pub inside : All (λ (r : TributeTransfer). r.from_seat < length s.players) ts

pub hand_over-IsHanded :
    (s : GameState) (a : ℕ) (ps : List PendingTribute) (seats : List ℕ)
    → GivesInside (length s.players) ps
    → AllSeats s seats
    → IsHanded s (hand_over s ps seats).0 a (hand_over s ps seats).1
unfolding hand_over
hand_over-IsHanded s a [] seats g h = record { held = refl; room = refl; inside = tt }
hand_over-IsHanded s a (p ∷ ps) [] g h = record { held = refl; room = refl; inside = tt }
hand_over-IsHanded s a (p ∷ ps) (seat ∷ seats) (f, g) (l, h) =
    let t = transfer_card s p.from_seat seat p.card_id in
    let (same, size) = transfer-held s p.from_seat seat p.card_id a l in
    let rest =
      hand_over-IsHanded t a ps seats (subst (λ n. GivesInside n ps) (sym size) g)
        (subst (λ n. All (λ (k : ℕ). k < n) seats) (sym size) h) in
    record {
      held = rest.held ∙ same;
      room = rest.room ∙ size;
      inside = (
        f,
        subst (λ n. All (λ (r : TributeTransfer). r.from_seat < n) (hand_over t ps seats).1) size
            rest.inside,
      );
    }
