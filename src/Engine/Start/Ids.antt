-- ===== src/Engine/Start/Ids.antt =====
-- A start keeps the players on their seats.

use gd_server.Base.{
  List, [], ap, false, get_or, get_or-set_part, refl, some, suc, zero, ℕ, ◌+◌, ◌∙◌, ◌≡◌,
}
use gd_server.Cards.{Card, create_full_deck, ok, playing}
use gd_server.Engine.Start.{give_hands, start_game}
use gd_server.Engine.Start.Dealt.{deal-hands, start_game-accepted, started-state}
use gd_server.Engine.Table.{GameEngine, PlayResult}
use gd_server.State.{GameState, PlayerState, add_all, empty_player, player, set_player}
use gd_server.Tribute.Data.{no_previous_round}

give_hands-id :
    (s : GameState) (hands : List (List ℕ)) (k i x : ℕ)
    → (player (give_hands s hands k i) x).id ≡ (player s x).id
unfolding give_hands
give_hands-id s hands zero i x = refl
give_hands-id s hands (suc k) i x =
    let p = record (player s i) {
      hand = add_all [] (get_or hands i []);
      has_finished = false;
      finish_rank = 0;
    } in
    give_hands-id (set_player s i p) hands k (i + 1) x
    ∙ get_or-set_part (λ (q : PlayerState). q.id) s.players i x p empty_player refl

pub start_game-id :
    (shuffle : List Card → List Card) (e e' : GameEngine) (r : PlayResult) (x : ℕ)
    → start_game shuffle e ≡ some (e', r)
    → r.code ≡ ok
    → ((player e'.state x).id ≡ (player e.state x).id) × (e'.state.phase ≡ playing)
start_game-id shuffle e e' r x h good =
    let cards = shuffle (create_full_deck e.config.deck_count) in
    let (_, on) = start_game-accepted shuffle e e' r h good in
    let e0 = record e { previous_round = no_previous_round } in
    let (hands, dealt, started) = deal-hands shuffle e0 (e', r) on in
    let (seats, phase, code) = started-state e0 e' cards hands r started in
    let s = record (e.state) { all_cards = cards } in
    (
      ap (λ (ps : List PlayerState). (get_or ps x empty_player).id) seats
          ∙ give_hands-id s hands e.state.player_count 0 x,
      phase,
    )
