-- ===== src/Samples/Game.antt =====
-- The rules of play applied to the sample tables.

use gd_server.Analyzer.{analyze}
use gd_server.Analyzer.Fits.{analyze-Fits}
use gd_server.Analyzer.Groups.{group_by_rank, normal, total_wild}
use gd_server.Analyzer.Kinds.{analyze_bomb, analyze_pair, analyze_single}
use gd_server.Analyzer.Sizes.{Fits}
use gd_server.Base.{
  List, [], arith, count, false, inl, length, refl, some, suc, true, ℕ, ◌+◌, ◌↔◌, ◌∷◌, ◌≡◌, ◌⊎◌,
}
use gd_server.Cards.{
  Card, invalid_state, is_level_card, is_wild_card, not_your_turn, pattern_rank_for_level_card,
  single_effective_rank,
}
use gd_server.Engine.Play.{
  accepted, assign_finish_rank, judge_play, pass, play_cards, put_down, skip_finished,
}
use gd_server.Engine.Play.Cards.{play-hands}
use gd_server.Engine.Play.Legal.{IsLegal, judge_play_iff}
use gd_server.Engine.Play.Next.{IsPlayed, play_total}
use gd_server.Engine.Play.Turn.{IsPassed, pass_total, skip_finished_ends}
use gd_server.Engine.Play.Twice.{play_twice}
use gd_server.Engine.Table.{GameEngine, PlayResult, done, failed, seat_of}
use gd_server.Rules.{CardPattern, can_beat, pair}
use gd_server.Rules.Order.{Stronger, can_beat_iff, can_beat_trans}
use gd_server.Samples.{
  context, engine, first_hand, four_bomb, four_of_clubs, fours, led_engine, nine_of_hearts,
  nine_of_spades, nines, pair_of_nines, pair_of_tens, stale_table, table,
}
use gd_server.State.{GameState, contains, get_card_by_id, player, remove}
use gd_server.State.Hands.{IsHeld, remove_iff}
use gd_server.Tribute.Data.{cards_from_ids}
use gd_server.Turns.{advance_turn, is_active, next_active_player}
use gd_server.Turns.Active.{IsNearest}

abbrev after_nines : GameEngine
after_nines = record engine { state = advance_turn (put_down table 0 nines pair_of_nines) }

abbrev after_fours : GameEngine
after_fours = record engine {
  state = advance_turn (put_down table 0 fours (record pair_of_nines { primary_rank = 4 }));
}

abbrev not_now : PlayResult
not_now = failed not_your_turn ""

abbrev must_play : PlayResult
must_play = failed invalid_state "Must play on new round"

nines-IsLegal : IsLegal engine 11 nines 0 pair_of_nines
unfolding judge_play contains seat_of cards_from_ids get_card_by_id can_beat analyze analyze_bomb
    analyze_pair analyze_single group_by_rank total_wild normal is_wild_card is_level_card
    pattern_rank_for_level_card single_effective_rank
nines-IsLegal = record {
  in_play = refl;
  seated = refl;
  turn = refl;
  unfinished = refl;
  held = refl;
  objs = nine_of_spades ∷ nine_of_hearts ∷ [];
  known = refl;
  read = refl;
  valid = refl;
  beats = inl refl;
}

judge_play_iff_example :
    (judge_play engine 11 nines ≡ some (accepted 0 pair_of_nines))
    ↔ IsLegal engine 11 nines 0 pair_of_nines
judge_play_iff_example = judge_play_iff engine 11 nines 0 pair_of_nines

play-hands_example :
    (IsHeld (player engine.state 0).hand nines
        × ((a : ℕ)
            → count a (player engine.state 0).hand
              ≡ count a nines + count a (player after_nines.state 0).hand)
      ⊎ (¬ IsHeld (player engine.state 0).hand nines)
        × ((player after_nines.state 0).hand ≡ (player engine.state 0).hand))
    × ((x : ℕ) → (x ≡ 0) ⊎ ((player after_nines.state x).hand ≡ (player engine.state x).hand))
unfolding play_cards put_down remove assign_finish_rank skip_finished advance_turn
    next_active_player judge_play contains seat_of cards_from_ids get_card_by_id can_beat analyze
    analyze_bomb analyze_pair analyze_single group_by_rank total_wild normal is_wild_card
    is_level_card pattern_rank_for_level_card single_effective_rank
play-hands_example =
    play-hands engine after_nines 11 nines 0 pair_of_nines done refl refl (omega arith)

pass_total_example :
    (t : GameState) × (pass led_engine 11 ≡ some (record led_engine { state = t }, done))
    × IsPassed led_engine.state 0 2 t
unfolding seat_of
pass_total_example =
    pass_total led_engine 11 0 2 1 refl refl refl refl refl (omega arith) (omega arith)
      (omega arith, refl)

play_total_example :
    (t : GameState) × (play_cards engine 11 nines ≡ some (record engine { state = t }, done))
    × IsPlayed engine.state 0 nines pair_of_nines t
unfolding remove
play_total_example =
    play_total engine 11 nines 0 pair_of_nines nines-IsLegal (omega arith) (omega arith) refl

play_twice_example :
    (p : CardPattern) × (judge_play engine 11 (3 ∷ 3 ∷ []) ≡ some (accepted 0 p))
    × (p.type ≡ pair)
    × ((player after_fours.state 0).hand ≡ (player engine.state 0).hand)
unfolding play_cards put_down remove assign_finish_rank skip_finished advance_turn
    next_active_player judge_play contains seat_of cards_from_ids get_card_by_id can_beat analyze
    analyze_bomb analyze_pair analyze_single group_by_rank total_wild normal is_wild_card
    is_level_card pattern_rank_for_level_card single_effective_rank
play_twice_example =
    play_twice engine after_fours 11 0 3 four_of_clubs done refl refl refl refl refl refl refl
      (omega arith) refl

skip_finished_ends_example :
    (t : GameState) × (c : ℕ) × (skip_finished (suc (suc 0)) stale_table ≡ some t)
    × (t.players ≡ stale_table.players)
    × (t.player_count ≡ stale_table.player_count)
    × (t.current_player_index ≡ some c)
    × (is_active stale_table c ≡ true)
    × (((is_active stale_table 3 ≡ true) × (c ≡ 3) × (t ≡ stale_table))
        ⊎ (is_active stale_table 3 ≡ false)
          × IsNearest (is_active stale_table) stale_table.player_count 3 c
          × (t ≡ record stale_table {
            current_player_index = some c;
            turn_id = stale_table.turn_id + 1;
          }))
skip_finished_ends_example =
    skip_finished_ends 0 3 1 stale_table refl (omega arith) (omega arith, refl)

remove_iff_example : ((remove first_hand nines).1 ≡ true) ↔ IsHeld first_hand nines
remove_iff_example = remove_iff first_hand nines

can_beat_iff_example :
    (can_beat pair_of_tens pair_of_nines ≡ true) ↔ Stronger pair_of_tens pair_of_nines
can_beat_iff_example =
    can_beat_iff pair_of_tens pair_of_nines (refl, ground arith) (refl, ground arith)

can_beat_trans_example : can_beat four_bomb pair_of_nines ≡ true
unfolding can_beat
can_beat_trans_example = can_beat_trans four_bomb pair_of_tens pair_of_nines refl refl

abbrev two_nines : List Card
two_nines = nine_of_spades ∷ nine_of_hearts ∷ []

analyze-Fits_example : Fits (analyze two_nines context) (length two_nines)
analyze-Fits_example = analyze-Fits two_nines context
