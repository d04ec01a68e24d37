-- ===== src/Engine/Play/Next.antt =====
-- The table after a play that leaves cards in the hand.

use mathlib.Core.Path.{fun_ext}
use gd_server.Base.{
  List, ap, arith, false, get_or-set_part, is_empty, length, not, refl, some, subst, true, ℕ, ◌<◌,
  ◌∙◌, ◌≡◌,
}
use gd_server.Engine.Play.{after_play, next_turn, play_cards, put_down, skip_finished, skip_fuel}
use gd_server.Engine.Play.Cards.{put_down-hands}
use gd_server.Engine.Play.Legal.{IsLegal, judge_play_iff}
use gd_server.Engine.Play.Turn.{
  IsPlaying, advance_turn-IsNearest, advance_turn_keeps, is_active_eq, skip_finished_stops,
}
use gd_server.Engine.Table.{GameEngine, done}
use gd_server.Rules.{CardPattern}
use gd_server.State.{GameState, PlayerState, empty_player, player, remove}
use gd_server.Turns.{advance_turn, is_active}
use gd_server.Turns.Active.{IsNearest}

next_turn_total :
    (e : GameEngine) (f x : ℕ)
    → e.state.current_player_index ≡ some f
    → f < e.state.player_count
    → IsPlaying e.state x
    → (c : ℕ) × (next_turn e ≡ some (record e { state = advance_turn e.state }, done))
      × ((advance_turn e.state).current_player_index ≡ some c)
      × IsNearest (is_active e.state) e.state.player_count f c
unfolding next_turn
next_turn_total e f x at_f hf px =
    let (c, at_c, near) = advance_turn-IsNearest e.state f x at_f hf px in
    let (j, a, b, at_j, active, earlier) = near in
    let stops : skip_finished skip_fuel (advance_turn e.state) ≡ some (advance_turn e.state) =
      skip_finished_stops 1 c (advance_turn e.state) at_c
        (is_active_eq (advance_turn e.state) e.state c (advance_turn_keeps e.state).0 ∙ active) in
    (c, ground (arith, stops), at_c, near)

put_down-is_active :
    (s : GameState) (seat x : ℕ) (cards : List ℕ) (p : CardPattern)
    → is_active (put_down s seat cards p) x ≡ is_active s x
unfolding put_down
put_down-is_active s seat x cards p = ap not (
    get_or-set_part (λ (q : PlayerState). q.has_finished) s.players seat x
      (record (player s seat) { hand = (remove (player s seat).hand cards).0 }) empty_player refl)

-- What a play of `cards` by `seat`, read as `p`, leaves on the table.
pub record IsPlayed (s : GameState) (seat : ℕ) (cards : List ℕ) (p : CardPattern) (t : GameState)
    : Type 0 where
  pub next : ℕ
  pub at_next : t.current_player_index ≡ some next
  pub nearest : IsNearest (is_active s) s.player_count seat next
  pub pattern : t.last_pattern ≡ p
  pub leader : t.last_played_player_index ≡ some seat
  pub cards_down : t.last_played_cards ≡ cards
  pub passes : t.pass_count ≡ 0

after_play_goes_on :
    (e : GameEngine) (seat : ℕ)
    → is_empty (player e.state seat).hand ≡ false
    → after_play e seat ≡ next_turn e
unfolding after_play
after_play_goes_on e seat h = rw h

-- A legal play that leaves the player with cards is accepted: the cards and their pattern lie on
-- the table as the player's, the passes are back to none, and the turn is with the nearest player
-- after this one who has not finished.
pub play_total :
    (e : GameEngine) (id : ℕ) (cards : List ℕ) (seat : ℕ) (p : CardPattern)
    → IsLegal e id cards seat p
    → seat < e.state.player_count
    → seat < length e.state.players
    → is_empty (remove (player e.state seat).hand cards).0 ≡ false
    → (t : GameState) × (play_cards e id cards ≡ some (record e { state = t }, done))
      × IsPlayed e.state seat cards p t
unfolding play_cards put_down advance_turn
play_total e id cards seat p legal hs inside left =
    let s = put_down e.state seat cards p in
    let down = record e { state = s } in
    let active : is_active s seat ≡ true =
      put_down-is_active e.state seat seat cards p ∙ ap not legal.unfinished in
    let (c, goes, at_c, near) = next_turn_total down seat seat legal.turn hs (hs, active) in
    let more : is_empty (player s seat).hand ≡ false =
      ap is_empty (put_down-hands e.state seat cards p inside).0 ∙ left in
    (
      advance_turn s,
      ground (
        arith,
        (judge_play_iff e id cards seat p).1 legal,
        after_play_goes_on down seat more,
        goes,
      ),
      record {
        next = c;
        at_next = at_c;
        nearest =
            subst (λ test. IsNearest test e.state.player_count seat c)
              (fun_ext (λ x. put_down-is_active e.state seat x cards p)) near;
        pattern = refl;
        leader = refl;
        cards_down = refl;
        passes = refl;
      },
    )
