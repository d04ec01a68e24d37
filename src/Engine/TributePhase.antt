-- ===== src/Engine/TributePhase.antt =====
-- `submitTribute`, `submitReturn` and the end of the tribute phase.
pub mod Steps
pub mod Returns
use gd_server.Base.{
  Bool, List, Option, [], elem, false, find_at, if◌then◌else◌, is_empty, map, none, not, put_at,
  remove_all, some, true, ℕ, ◌&&◌, ◌++◌, ◌==◌, ◌>>=◌, ◌||◌, ◌∷◌,
}
use gd_server.Cards.{invalid_cards, invalid_state, not_your_turn, phase_eq, return_tribute, tribute}
use gd_server.Engine.Table.{
  GameEngine, Outcome, begin_playing_from_deal, clear_tribute_state, done, failed,
  increment_state_version, rule_context, seat_of,
}
use gd_server.State.{GameState, player}
use gd_server.Tribute.Choice.{
  is_valid_return_submission, is_valid_tribute_submission, pick_return_card, required_tribute_card,
}
use gd_server.Tribute.Data.{TributeRoundResult, TributeTransfer}
use gd_server.Tribute.Moves.{apply_return_transfer, assign_tributes, compute_first_player_seat}

head_tributer : List TributeTransfer → Option ℕ → Option ℕ
head_tributer [] head = none
head_tributer (t ∷ ts) head =
    let rest = head_tributer ts head in
    elim head [ none ↦ rest | some h ↦ if t.to_seat == h then some t.from_seat else rest ]

unfoldable pub finish_tribute_phase_and_start_play : GameEngine → Outcome
unfolding head_tributer
finish_tribute_phase_and_start_play e =
    let head = e.tribute_state.plan.head_seat in
    compute_first_player_seat e.last_tribute head e.state (rule_context e) e.previous_round
      e.state.player_count
    >>= λ first.
        let finished_tribute = record (e.last_tribute) {
          first_player_seat = first;
          head_tributer_seat = head_tributer e.last_tribute.tributes head;
        } in
        some (
          begin_playing_from_deal
              (clear_tribute_state (record e { last_tribute = finished_tribute })) first,
          done,
        )

unfoldable pub has_pending_tribute_action : GameEngine → Bool
has_pending_tribute_action e =
    e.tribute_state.active
    && (phase_eq e.state.phase tribute || phase_eq e.state.phase return_tribute)

-- The submission recorded and the seat taken off the list.
pub record_tribute : GameEngine → ℕ → ℕ → GameEngine
record_tribute e seat card_id = record e {
  tribute_state = record (e.tribute_state) {
    tribute_submissions = put_at e.tribute_state.tribute_submissions seat card_id;
    pending_tributers = remove_all e.tribute_state.pending_tributers seat;
  };
  state = increment_state_version e.state;
}

-- The loop that lists who has to return a card, and to whom.
unfoldable pub return_map : List TributeTransfer → List (ℕ × ℕ) → List (ℕ × ℕ)
return_map [] m = m
return_map (t ∷ ts) m = return_map ts (put_at m t.to_seat t.from_seat)

open_returns : GameEngine → GameEngine
unfolding return_map
open_returns e = record e {
  tribute_state = record (e.tribute_state) {
    pending_return_seats = map (λ t. t.to_seat) e.last_tribute.tributes;
    return_to_tributer = return_map e.last_tribute.tributes [];
  };
  state = increment_state_version (record (e.state) { phase = return_tribute });
}

-- All tributes are in: they change hands, and the returns begin.
pub close_tributes : GameEngine → Outcome
unfolding open_returns
close_tributes e =
    assign_tributes e.state (rule_context e) e.tribute_state.plan
      e.tribute_state.tribute_submissions
      (record (e.last_tribute) { skipped = false; anti_tribute = false })
    >>= λ (r : GameState × TributeRoundResult).
        let moved = record e { state = r.0; last_tribute = r.1 } in
        let none_given = finish_tribute_phase_and_start_play (record moved {
          last_tribute = record (moved.last_tribute) {
            first_player_seat = e.tribute_state.plan.head_seat;
          };
        }) in
        if is_empty r.1.tributes then none_given else some (open_returns moved, done)

pub tribute_by : GameEngine → ℕ → ℕ → Bool → Outcome
unfolding record_tribute close_tributes
tribute_by e seat card_id valid =
    let recorded = record_tribute e seat card_id in
    let closed = close_tributes recorded in
    if not valid
    then some (e, failed invalid_cards "Must tribute the largest non-wild card")
    else if not (is_empty recorded.tribute_state.pending_tributers)
    then some (recorded, done)
    else closed

pub tribute_from : GameEngine → Option ℕ → ℕ → Outcome
unfolding tribute_by
tribute_from e none card_id = some (e, failed invalid_state "")
tribute_from e (some seat) card_id =
    if not (elem seat e.tribute_state.pending_tributers)
    then some (e, failed not_your_turn "")
    else (is_valid_tribute_submission seat card_id e.state (rule_context e) >>= λ valid.
        tribute_by e seat card_id valid)

unfoldable pub submit_tribute : GameEngine → ℕ → ℕ → Outcome
unfolding tribute_from
submit_tribute e player_id card_id =
    if not (phase_eq e.state.phase tribute) || not e.tribute_state.active
    then some (e, failed invalid_state "")
    else tribute_from e (seat_of e.state player_id) card_id

-- `returnToTributer[seat]`; the map gives seat 0 where it has no entry.
abbrev pub seat_or_zero : Option ℕ → ℕ
seat_or_zero none = 0
seat_or_zero (some t) = t

abbrev pub tributer_of : List (ℕ × ℕ) → ℕ → ℕ
tributer_of m seat = seat_or_zero (find_at m seat)

pub record_return : GameEngine → ℕ → ℕ → GameEngine
record_return e seat card_id =
    let to_seat = tributer_of e.tribute_state.return_to_tributer seat in
    record e {
      state = increment_state_version (apply_return_transfer e.state seat to_seat card_id);
      last_tribute = record (e.last_tribute) {
        returns =
            e.last_tribute.returns
            ++ record { from_seat = seat; to_seat = to_seat; card_id = card_id } ∷ [];
      };
      tribute_state = record (e.tribute_state) {
        pending_return_seats = remove_all e.tribute_state.pending_return_seats seat;
      };
    }

pub return_by : GameEngine → ℕ → ℕ → Bool → Outcome
unfolding record_return
return_by e seat card_id valid =
    let recorded = record_return e seat card_id in
    if not valid
    then some (e, failed invalid_cards "Invalid return card")
    else if not (is_empty recorded.tribute_state.pending_return_seats)
    then some (recorded, done)
    else some (recorded, record done { tribute_round_complete = true })

unfoldable pub return_from : GameEngine → Option ℕ → ℕ → Outcome
unfolding return_by
return_from e none card_id = some (e, failed invalid_state "")
return_from e (some seat) card_id =
    if not (elem seat e.tribute_state.pending_return_seats)
    then some (e, failed not_your_turn "")
    else (is_valid_return_submission seat card_id e.state (rule_context e) >>= λ valid.
        return_by e seat card_id valid)

unfoldable pub submit_return : GameEngine → ℕ → ℕ → Outcome
unfolding return_from
submit_return e player_id card_id =
    if not (phase_eq e.state.phase return_tribute) || not e.tribute_state.active
    then some (e, failed invalid_state "")
    else return_from e (seat_of e.state player_id) card_id

unfoldable pub finalize_tribute_phase : GameEngine → Outcome
finalize_tribute_phase e = finish_tribute_phase_and_start_play e

-- A chosen card 0 counts as no card.
abbrev chosen : ℕ → Option ℕ
chosen id = if id == 0 then none else some id

unfoldable pub choose_bot_tribute_card : GameEngine → ℕ → Option (Option ℕ)
choose_bot_tribute_card e player_id = elim (seat_of e.state player_id) [
  | none ↦ some none
  | some seat ↦ required_tribute_card (player e.state seat).hand e.state (rule_context e) >>= λ id.
      some (chosen id)
]

unfoldable pub choose_bot_return_card : GameEngine → ℕ → Option (Option ℕ)
choose_bot_return_card e player_id = elim (seat_of e.state player_id) [
  | none ↦ some none
  | some seat ↦ pick_return_card (player e.state seat).hand e.state (rule_context e) >>= λ id.
      some (chosen id)
]
