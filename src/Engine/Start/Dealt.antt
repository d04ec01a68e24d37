-- ===== src/Engine/Start/Dealt.antt =====
-- What `startGame` puts on the table.

use gd_server.Base.{
  >>=-eq-some, List, [], all, ap, arith, false, get_or, length, refl, some, suc, sym, true, zero, ℕ,
  ℕ_discrete, ◌+◌, ◌<◌, ◌∙◌, ◌≡◌, ◌≢◌, ◌≤◌,
}
use gd_server.Cards.{Card, create_full_deck, ok, playing}
use gd_server.Cards.Deck.{deal}
use gd_server.Engine.Start.{
  cards_per_player_of, deal_and_start_playing, deal_hands, give_hands, new_round, start_dealt,
  start_game,
}
use gd_server.Engine.Table.{GameEngine, PlayResult, all_ready, begin_playing_from_deal}
use gd_server.State.{GameState, PlayerState, add_all, empty_player, player, set_player}
use gd_server.State.Seats.{length-set_player, player-set_ne, player-set_self}
use gd_server.Tribute.Data.{no_previous_round}

-- A hand that is given stays with its seat while the later seats get theirs.
give_hands_before :
    (s : GameState) (hands : List (List ℕ)) (k i x : ℕ)
    → x < i
    → player (give_hands s hands k i) x ≡ player s x
unfolding give_hands
give_hands_before s hands zero i x h = refl
give_hands_before s hands (suc k) i x h =
    let p = record (player s i) {
      hand = add_all [] (get_or hands i []);
      has_finished = false;
      finish_rank = 0;
    } in
    let other : i ≢ x = omega arith in
    give_hands_before (set_player s i p) hands k (i + 1) x (omega arith)
    ∙ player-set_ne s i x p other

give_hands-player :
    (s : GameState) (hands : List (List ℕ)) (k i x : ℕ)
    → i + k ≤ length s.players
    → i ≤ x
    → x < i + k
    → ((player (give_hands s hands k i) x).hand ≡ get_or hands x [])
      × ((player (give_hands s hands k i) x).has_finished ≡ false)
      × ((player (give_hands s hands k i) x).finish_rank ≡ 0)
unfolding give_hands add_all
give_hands-player s hands zero i x room a b = absurd (omega arith)
give_hands-player s hands (suc k) i x room a b =
    let p = record (player s i) {
      hand = get_or hands i [];
      has_finished = false;
      finish_rank = 0;
    } in
    let t = set_player s i p in
    elim (ℕ_discrete i x) [
      | yes same ↦
          let at_x : player (give_hands t hands k (i + 1)) x ≡ p =
            give_hands_before t hands k (i + 1) x (omega arith)
            ∙ ap (λ z. player t z) (sym same)
            ∙ player-set_self s i p (omega arith) in
          rw at_x (ap (λ z. get_or hands z []) same, refl, refl)
      | no other ↦
          give_hands-player t hands k (i + 1) x (rw (length-set_player s i p) (omega arith))
            (omega arith) (omega arith)
    ]

pub started-state :
    (e e' : GameEngine) (cards : List Card) (hands : List (List ℕ)) (r : PlayResult)
    → start_dealt (deal_hands e cards hands) false ≡ some (e', r)
    → (e'.state.players
        ≡ (give_hands
            (record (e.state) { all_cards = cards })
            hands
            e.state.player_count
            0).players)
      × (e'.state.phase ≡ playing)
      × (r.code ≡ ok)
unfolding start_dealt deal_hands new_round begin_playing_from_deal
started-state e e' cards hands r h = (ground arith, ground arith, ground arith)

pub start_game-accepted :
    (shuffle : List Card → List Card) (e e' : GameEngine) (r : PlayResult)
    → start_game shuffle e ≡ some (e', r)
    → r.code ≡ ok
    → (all_ready e ≡ true)
      × (deal_and_start_playing shuffle (record e { previous_round = no_previous_round }) false
          ≡ some (e', r))
unfolding start_game
start_game-accepted shuffle e e' r h good = ground arith

-- The hands that are dealt, and what comes of them.
pub deal-hands :
    (shuffle : List Card → List Card) (e : GameEngine) (out : GameEngine × PlayResult)
    → deal_and_start_playing shuffle e false ≡ some out
    → (hands : List (List ℕ)) × (deal
          (shuffle (create_full_deck e.config.deck_count))
          e.state.player_count
          (cards_per_player_of e.config)
        ≡ some hands)
      × (start_dealt (deal_hands e (shuffle (create_full_deck e.config.deck_count)) hands) false
          ≡ some out)
unfolding deal_and_start_playing
deal-hands shuffle e out h =
    let cards = shuffle (create_full_deck e.config.deck_count) in
    >>=-eq-some (deal cards e.state.player_count (cards_per_player_of e.config))
      (λ hands. start_dealt (deal_hands e cards hands) false) h

-- The seat of the table that a deal gives a hand.
dealt-seat :
    (s t : GameState) (hands : List (List ℕ)) (x : ℕ)
    → t.players ≡ (give_hands s hands s.player_count 0).players
    → s.player_count ≤ length s.players
    → x < s.player_count
    → ((player t x).hand ≡ get_or hands x []) × ((player t x).has_finished ≡ false)
dealt-seat s t hands x seats room inside =
    let (hand, still_in, rank) =
      give_hands-player s hands s.player_count 0 x (omega (arith, room)) (omega arith)
        (omega arith) in
    let same = ap (λ (ps : List PlayerState). get_or ps x empty_player) seats in
    (
      ap (λ (q : PlayerState). q.hand) same ∙ hand,
      ap (λ (q : PlayerState). q.has_finished) same ∙ still_in,
    )

-- A game that starts had all players ready; the play begins, and the shuffled full deck is dealt:
-- each seat of the table holds its own part of the deal and nothing else, and nobody has finished.
pub start_game_deals :
    (shuffle : List Card → List Card) (e e' : GameEngine) (r : PlayResult) (x : ℕ)
    → start_game shuffle e ≡ some (e', r)
    → r.code ≡ ok
    → e.state.player_count ≤ length e.state.players
    → x < e.state.player_count
    → (all_ready e ≡ true)
      × (e'.state.phase ≡ playing)
      × ((hands : List (List ℕ)) × (deal
              (shuffle (create_full_deck e.config.deck_count))
              e.state.player_count
              (cards_per_player_of e.config)
            ≡ some hands)
          × ((player e'.state x).hand ≡ get_or hands x [])
          × ((player e'.state x).has_finished ≡ false))
start_game_deals shuffle e e' r x h good room inside =
    let cards = shuffle (create_full_deck e.config.deck_count) in
    let e0 = record e { previous_round = no_previous_round } in
    let (all, on) = start_game-accepted shuffle e e' r h good in
    let (hands, dealt, started) = deal-hands shuffle e0 (e', r) on in
    let (seats, phase, code) = started-state e0 e' cards hands r started in
    let mine =
      dealt-seat (record (e.state) { all_cards = cards }) e'.state hands x seats room inside in
    (all, phase, (hands, dealt, mine.0, mine.1))
