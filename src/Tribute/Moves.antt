-- ===== src/Tribute/Moves.antt =====
-- tribute.cpp: the transfers of cards, `assignTributes` and `computeFirstPlayerSeat`.
pub mod Kept
pub mod Handed
pub mod Senders
use Prim.Native.String.{◌++◌ as append}
use gd_server.Base.{
  Bool, List, Option, [], find_at, if◌then◌else◌, is_empty, ltb, none, not, some, ℕ, ◌%◌, ◌++◌, ◌+◌,
  ◌-◌, ◌==◌, ◌>>=◌, ◌||◌, ◌∷◌,
}
use gd_server.Cards.{RuleContext}
use gd_server.State.{GameState, add, contains, get_card_by_id, player, remove, set_player}
use gd_server.Tribute.Data.{
  PreviousRoundInfo, TributePhasePlan, TributeRoundResult, TributeTransfer, above, below,
  rank_order_for_tribute, seat_by_finish_rank,
}

-- `(seat - headSeat + playerCount) % playerCount`; from seat -1 on it is one more.
distance : ℕ → Option ℕ → ℕ → ℕ
distance seat none n = (seat + 1 + n) % n
distance seat (some head) n = (seat + n - head) % n

unfoldable pub transfer_card : GameState → ℕ → ℕ → ℕ → GameState
transfer_card s from_seat to_seat card_id =
    let giver = player s from_seat in
    let taken =
      set_player s from_seat (record giver { hand = (remove giver.hand (card_id ∷ [])).0 }) in
    let taker = player taken to_seat in
    let moved = set_player taken to_seat (record taker { hand = add taker.hand card_id }) in
    if card_id == 0 then s else if not (contains giver.hand (card_id ∷ [])) then s else moved

unfoldable pub apply_return_transfer : GameState → ℕ → ℕ → ℕ → GameState
unfolding transfer_card
apply_return_transfer s from_seat to_seat card_id = transfer_card s from_seat to_seat card_id

-- A pending tribute with the card looked up: the order is all that the comparison reads.
pub record PendingTribute : Type 0 where
  pub from_seat : ℕ
  pub card_id : ℕ
  pub order : ℕ

-- The loop that collects what was submitted; the card is looked up here and not in the sort.
unfoldable pub pending_from :
    GameState → RuleContext → List (ℕ × ℕ) → List ℕ → Option (List PendingTribute)
unfolding rank_order_for_tribute
pending_from s ctx submissions [] = some []
pending_from s ctx submissions (seat ∷ seats) =
    let rest = pending_from s ctx submissions seats in
    elim (find_at submissions seat) [
      | none ↦ rest
      | some id ↦
          if id == 0
          then rest
          else (get_card_by_id s id >>= λ c. rest >>= λ ps. some (
              record { from_seat = seat; card_id = id; order = rank_order_for_tribute c ctx } ∷ ps))
    ]

-- `compareTributeCards(a, b) < 0`: the higher card first, then the seat nearer after the head.
pub comes_first : Option ℕ → ℕ → PendingTribute → PendingTribute → Bool
unfolding distance
comes_first head n a b =
    if not (a.order == b.order)
    then ltb b.order a.order
    else ltb (distance a.from_seat head n) (distance b.from_seat head n)

-- `std::sort` with this comparison.
unfoldable pub insert_tribute :
    Option ℕ → ℕ → PendingTribute → List PendingTribute → List PendingTribute
unfolding comes_first
insert_tribute head n a [] = a ∷ []
insert_tribute head n a (b ∷ bs) =
    if comes_first head n b a then b ∷ insert_tribute head n a bs else a ∷ b ∷ bs

unfoldable pub sort_tributes : Option ℕ → ℕ → List PendingTribute → List PendingTribute
unfolding insert_tribute
sort_tributes head n [] = []
sort_tributes head n (p ∷ ps) = insert_tribute head n p (sort_tributes head n ps)

-- The loop over the first tributes and recipients.
unfoldable pub hand_over :
    GameState → List PendingTribute → List ℕ → GameState × List TributeTransfer
unfolding transfer_card
hand_over s [] seats = (s, [])
hand_over s (p ∷ ps) [] = (s, [])
hand_over s (p ∷ ps) (seat ∷ seats) =
    let (t, transfers) = hand_over (transfer_card s p.from_seat seat p.card_id) ps seats in
    (t, record { from_seat = p.from_seat; to_seat = seat; card_id = p.card_id } ∷ transfers)

-- The table afterwards, and the result.
unfoldable pub assign_pending :
    GameState
    → TributePhasePlan
    → TributeRoundResult
    → List PendingTribute
    → GameState × TributeRoundResult
unfolding sort_tributes hand_over
assign_pending s plan result [] =
    (s, record result { tributes = []; summary = append plan.summary "_no_card" })
assign_pending s plan result (p ∷ ps) =
    let (t, transfers) =
      hand_over s (sort_tributes plan.head_seat s.player_count (p ∷ ps)) plan.recipient_seats in
    (t, record result { tributes = transfers; summary = plan.summary })

unfoldable pub assign_tributes :
    GameState
    → RuleContext
    → TributePhasePlan
    → List (ℕ × ℕ)
    → TributeRoundResult
    → Option (GameState × TributeRoundResult)
unfolding pending_from assign_pending
assign_tributes s ctx plan submissions result =
    pending_from s ctx submissions plan.tributer_seats >>= λ ps.
    some (assign_pending s plan result ps)

-- The loop of `computeFirstPlayerSeat`: the best order so far, and the seats that gave such a card.
first_seats_from :
    GameState → RuleContext → List TributeTransfer → Option ℕ → List ℕ → Option (List ℕ)
unfolding rank_order_for_tribute
first_seats_from s ctx [] max_order seats = some seats
first_seats_from s ctx (t ∷ ts) max_order seats = get_card_by_id s t.card_id >>= λ c.
    let order = rank_order_for_tribute c ctx in
    let better = above max_order order in
    let new_order = if better then some order else max_order in
    first_seats_from s ctx ts new_order (
      if better
      then t.from_seat ∷ []
      else if below max_order order
      then seats
      else seats ++ t.from_seat ∷ [])

abbrev or_seat : Option ℕ → Option ℕ → Option ℕ
or_seat none b = b
or_seat (some a) b = some a

first_of_seats : List ℕ → Option ℕ → PreviousRoundInfo → ℕ → Option ℕ
unfolding seat_by_finish_rank
first_of_seats (seat ∷ []) head previous n = some seat
first_of_seats _ head previous n = or_seat (seat_by_finish_rank previous n n) head

unfoldable pub compute_first_player_seat :
    TributeRoundResult
    → Option ℕ
    → GameState
    → RuleContext
    → PreviousRoundInfo
    → ℕ
    → Option (Option ℕ)
unfolding first_seats_from first_of_seats
compute_first_player_seat result head s ctx previous n =
    if result.anti_tribute || result.skipped || is_empty result.tributes
    then some head
    else (first_seats_from s ctx result.tributes none [] >>= λ seats.
        some (first_of_seats seats head previous n))
