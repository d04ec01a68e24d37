-- ===== src/Turns.antt =====
-- server/src/game/turn_manager.cpp: the order of play. A seat that the source gives as -1 is `none`.
pub mod Active
pub mod Lead
use gd_server.Base.{
  ℕ, zero, suc, ◌+◌, ◌-◌, ◌%◌, Bool, true, false, not, ◌&&◌, ◌||◌, [], Option, none, some, ltb, leb,
  ◌==◌, if◌then◌else◌,
}
use gd_server.Rules.{no_pattern}
use gd_server.State.{GameState, player}

-- `(fromIndex + i) % playerCount` for `i` from 1 on; from seat -1 that is seat `i - 1`.
abbrev pub seat_after : Option ℕ → ℕ → ℕ → ℕ
seat_after none i n = (i - 1) % n
seat_after (some from) i n = (from + i) % n

-- The loop with `k` rounds left, at round `i`: the first seat that passes the test.
first_seat : (ℕ → Bool) → Option ℕ → ℕ → ℕ → ℕ → Option ℕ
first_seat test from n zero i = none
first_seat test from n (suc k) i =
    let rest = first_seat test from n k (i + 1) in
    if test (seat_after from i n) then some (seat_after from i n) else rest

abbrev pub is_active : GameState → ℕ → Bool
is_active s seat = not (player s seat).has_finished

abbrev or_else : Option ℕ → Option ℕ → Option ℕ
or_else (some a) b = some a
or_else none b = b

unfoldable pub next_active_player : GameState → Option ℕ → Option ℕ
unfolding first_seat
next_active_player s from =
    or_else (first_seat (is_active s) from s.player_count s.player_count 1) from

unfoldable pub advance_turn : GameState → GameState
unfolding next_active_player
advance_turn s = record s {
  current_player_index = next_active_player s s.current_player_index;
  turn_id = s.turn_id + 1;
}

abbrev pub is_active_of : GameState → ℕ → ℕ → Bool
is_active_of s team seat = is_active s seat && (player s seat).team == team

-- The argument is not negative: its caller has tested that.
unfoldable pub wind_partner_seat : GameState → ℕ → Option ℕ
unfolding first_seat next_active_player
wind_partner_seat s leader =
    if leb s.player_count leader
    then next_active_player s s.current_player_index
    else or_else
        (first_seat (is_active_of s (player s leader).team) (some leader) s.player_count
          s.player_count 1)
        (next_active_player s (some leader))

unfoldable pub resolve_round_lead_seat : GameState → Option ℕ → Option ℕ
unfolding wind_partner_seat next_active_player
resolve_round_lead_seat s none = next_active_player s s.current_player_index
resolve_round_lead_seat s (some winner) =
    if (player s winner).has_finished then wind_partner_seat s winner else some winner

unfoldable pub reset_round : GameState → Option ℕ → GameState
unfolding resolve_round_lead_seat
reset_round s winner =
    let t = record s {
      last_played_cards = [];
      last_pattern = no_pattern;
      last_played_player_index = none;
      pass_count = 0;
    } in
    record t { current_player_index = resolve_round_lead_seat t winner; turn_id = t.turn_id + 1 }

abbrev pub seat_eq : Option ℕ → Option ℕ → Bool
seat_eq none none = true
seat_eq (some a) (some b) = a == b
seat_eq _ _ = false

-- The loop that counts the responders, with `k` seats left, at seat `i`.
pub responders_from : GameState → ℕ → ℕ → ℕ
responders_from s zero i = 0
responders_from s (suc k) i =
    (if (player s i).has_finished
      then 0
      else if seat_eq (some i) s.last_played_player_index
      then 0
      else 1)
    + responders_from s k (i + 1)

unfoldable pub all_others_passed : GameState → Bool
unfolding responders_from
all_others_passed s =
    let responders = responders_from s s.player_count 0 in
    ltb 0 responders && leb responders s.pass_count

unfoldable pub should_reset_round_after_pass : GameState → ℕ → Bool
unfolding next_active_player
should_reset_round_after_pass s seat = elim s.last_played_player_index [
  | none ↦ false
  | some last ↦ seat_eq (next_active_player s (some seat)) (some last)
]
