-- ===== src/Engine/Play/Twice.antt =====
-- One card named twice.

use gd_server.Analyzer.{analyze}
use gd_server.Analyzer.Doubles.{analyze_twice}
use gd_server.Base.{
  [], arith, count, elem_iff, false, inl, inr, length, refl, some, ℕ, ◌<◌, ◌∷◌, ◌≡◌,
}
use gd_server.Cards.{Card, playing}
use gd_server.Engine.Play.{accepted, judge_play, play_cards}
use gd_server.Engine.Play.Cards.{play-hands}
use gd_server.Engine.Play.Legal.{judge_play_iff}
use gd_server.Engine.Table.{GameEngine, PlayResult, rule_context, seat_of}
use gd_server.Rules.{CardPattern, pair}
use gd_server.State.{contains, get_card_by_id, player}
use gd_server.Tribute.Data.{cards_from_ids}

-- A player who leads and holds a known card once may name it twice: the play is accepted as a pair,
-- and when it has been made the hand is as before.
pub play_twice :
    (e e' : GameEngine) (id seat c : ℕ) (card : Card) (r : PlayResult)
    → e.state.phase ≡ playing
    → seat_of e.state id ≡ some seat
    → e.state.current_player_index ≡ some seat
    → (player e.state seat).has_finished ≡ false
    → count c (player e.state seat).hand ≡ 1
    → get_card_by_id e.state c ≡ some card
    → e.state.last_pattern.is_valid ≡ false
    → seat < length e.state.players
    → play_cards e id (c ∷ c ∷ []) ≡ some (e', r)
    → (p : CardPattern) × (judge_play e id (c ∷ c ∷ []) ≡ some (accepted seat p))
      × (p.type ≡ pair)
      × ((player e'.state seat).hand ≡ (player e.state seat).hand)
unfolding cards_from_ids contains
play_twice e e' id seat c card r ph so turn unf once known lead inside played =
    let p = analyze (card ∷ card ∷ []) (rule_context e) in
    let (valid, is_pair) = analyze_twice card (rule_context e) in
    let judged : judge_play e id (c ∷ c ∷ []) ≡ some (accepted seat p) =
      (judge_play_iff e id (c ∷ c ∷ []) seat p).1 (record {
        in_play = ph;
        seated = so;
        turn = turn;
        unfinished = unf;
        held = ground (arith, elem_iff c (player e.state seat).hand);
        objs = card ∷ card ∷ [];
        known = ground arith;
        read = refl;
        valid = valid;
        beats = inl lead;
      }) in
    let stays : (player e'.state seat).hand ≡ (player e.state seat).hand =
      elim (play-hands e e' id (c ∷ c ∷ []) seat p r played judged inside).0 [
        | inl (held, split) ↦ absurd (ground (arith, held c))
        | inr (short, same) ↦ same
      ] in
    (p, judged, is_pair, stays)
