-- ===== src/Engine/Play/Refusals.antt =====
-- A call that is refused leaves the engine as it was.

use gd_server.Base.{List, Option, arith, none, refl, some, ℕ, ◌≡◌, ◌≢◌}
use gd_server.Cards.{ok}
use gd_server.Engine.Play.{
  Verdict, accepted, after_play, assign_finish_rank, end_round, judge_play, next_turn, pass,
  play_cards, put_down, refused,
}
use gd_server.Engine.Table.{GameEngine, PlayResult}

next_turn-code : (e e' : GameEngine) (r : PlayResult) → next_turn e ≡ some (e', r) → r.code ≡ ok
unfolding next_turn
next_turn-code e e' r h = ground arith

end_round-code : (e : GameEngine) → (end_round e).1.code ≡ ok
unfolding end_round
end_round-code e = refl

after_play-code :
    (e e' : GameEngine) (seat : ℕ) (r : PlayResult) → after_play e seat ≡ some (e', r) → r.code ≡ ok
unfolding after_play
after_play-code e e' seat r h = ground (
  arith,
  next_turn-code e e' r,
  next_turn-code (record e { state = assign_finish_rank e.state seat }) e' r,
  end_round-code (record e { state = assign_finish_rank e.state seat }),
)

-- A play that is refused changes nothing.
pub play_refused :
    (e e' : GameEngine) (id : ℕ) (cards : List ℕ) (r : PlayResult)
    → play_cards e id cards ≡ some (e', r)
    → r.code ≢ ok
    → e' ≡ e
unfolding play_cards
play_refused e e' id cards r h bad = cases (judge_play e id cards) refl
  where
    cases : (v : Option Verdict) → judge_play e id cards ≡ v → e' ≡ e
    cases none q = ground arith
    cases (some (refused code)) q = ground arith
    cases (some (accepted seat p)) q = absurd (
        bad (
          after_play-code (record e { state = put_down e.state seat cards p }) e' seat r
            (ground arith)))

-- A pass that is refused changes nothing.
pub pass_refused :
    (e e' : GameEngine) (id : ℕ) (r : PlayResult) → pass e id ≡ some (e', r) → r.code ≢ ok → e' ≡ e
unfolding pass
pass_refused e e' id r h bad = ground arith
