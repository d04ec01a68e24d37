-- ===== src/Engine/Play/Legal.antt =====
-- When `playCards` accepts: the conditions on a play.

use gd_server.Analyzer.{analyze}
use gd_server.Base.{List, Option, ap, arith, false, none, refl, some, true, ℕ, ◌↔◌, ◌∙◌, ◌≡◌, ◌⊎◌}
use gd_server.Cards.{Card, playing}
use gd_server.Engine.Play.{accepted, judge_pattern, judge_play, judge_seat}
use gd_server.Engine.Table.{GameEngine, rule_context, seat_of}
use gd_server.Rules.{CardPattern, can_beat}
use gd_server.State.{contains, player}
use gd_server.Tribute.Data.{cards_from_ids}

pub record IsLegal (e : GameEngine) (id : ℕ) (cards : List ℕ) (seat : ℕ) (p : CardPattern)
    : Type 0 where
  pub in_play : e.state.phase ≡ playing
  pub seated : seat_of e.state id ≡ some seat
  pub turn : e.state.current_player_index ≡ some seat
  pub unfinished : (player e.state seat).has_finished ≡ false
  pub held : contains (player e.state seat).hand cards ≡ true
  pub objs : List Card
  pub known : cards_from_ids e.state cards ≡ some objs
  pub read : analyze objs (rule_context e) ≡ p
  pub valid : p.is_valid ≡ true
  pub beats : (e.state.last_pattern.is_valid ≡ false) ⊎ (can_beat p e.state.last_pattern ≡ true)

judge_pattern_accepts :
    (e : GameEngine) (seat seat' : ℕ) (p q : CardPattern)
    → judge_pattern e seat p ≡ accepted seat' q
    → (seat ≡ seat')
      × (p ≡ q)
      × (p.is_valid ≡ true)
      × ((e.state.last_pattern.is_valid ≡ false) ⊎ (can_beat p e.state.last_pattern ≡ true))
unfolding judge_pattern
judge_pattern_accepts e seat seat' p q h = ground arith

judge_seat_parts :
    (e : GameEngine) (s : ℕ) (cards : List ℕ) (seat : ℕ) (p : CardPattern)
    → judge_seat e (some s) cards ≡ some (accepted seat p)
    → (e.state.current_player_index ≡ some s)
      × ((player e.state s).has_finished ≡ false)
      × (contains (player e.state s).hand cards ≡ true)
      × (objs : List Card) × (cards_from_ids e.state cards ≡ some objs)
      × (judge_pattern e s (analyze objs (rule_context e)) ≡ accepted seat p)
unfolding judge_seat
judge_seat_parts e s cards seat p h = ground arith

judge_seat-IsLegal :
    (e : GameEngine) (id : ℕ) (found : Option ℕ) (cards : List ℕ) (seat : ℕ) (p : CardPattern)
    → e.state.phase ≡ playing
    → seat_of e.state id ≡ found
    → judge_seat e found cards ≡ some (accepted seat p)
    → IsLegal e id cards seat p
unfolding judge_seat
judge_seat-IsLegal e id none cards seat p ph so h = ground arith
judge_seat-IsLegal e id (some s) cards seat p ph so h =
    let (turn, unfinished, held, objs, known, judged) = judge_seat_parts e s cards seat p h in
    let (same, read, valid, beats) =
      judge_pattern_accepts e s seat (analyze objs (rule_context e)) p judged in
    record {
      in_play = ph;
      seated = so ∙ ap some same;
      turn = turn ∙ ap some same;
      unfinished = rw (← same) unfinished;
      held = rw (← same) held;
      objs = objs;
      known = known;
      read = read;
      valid = rw (← read) valid;
      beats = rw (← read) beats;
    }

-- A play is accepted exactly when it is legal: in the phase of play, by the player whose turn it is
-- and who still has cards, with known cards from that player's hand that form a valid pattern and
-- beat the last one, if one lies on the table.
pub judge_play_iff :
    (e : GameEngine) (id : ℕ) (cards : List ℕ) (seat : ℕ) (p : CardPattern)
    → (judge_play e id cards ≡ some (accepted seat p)) ↔ IsLegal e id cards seat p
unfolding judge_play
judge_play_iff e id cards seat p = (
  λ h.
      let in_play : e.state.phase ≡ playing = ground arith in
      judge_seat-IsLegal e id (seat_of e.state id) cards seat p in_play refl (ground arith),
  λ l. ground (arith, l.beats),
)
