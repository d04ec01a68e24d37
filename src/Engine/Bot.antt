-- ===== src/Engine/Bot.antt =====
-- server/src/game/bot_player.cpp: the play of a bot, the cheapest of all that it may make. A call
-- that throws, or shifts further than an `int` allows, is `none`.
pub mod Choices
pub mod Masks
pub mod Cheapest
-- `leadScore` and `beatScore` are the same formula.
use gd_server.Analyzer.{analyze}
use gd_server.Base.{
  Bool, List, Option, [], if◌then◌else◌, leb, length, ltb, none, not, some, suc, zero, ℕ, ◌%◌, ◌*◌,
  ◌+◌, ◌-◌, ◌/◌, ◌==◌, ◌>>=◌, ◌^◌, ◌∷◌,
}
use gd_server.Cards.{RuleContext}
use gd_server.Engine.Table.{GameEngine, rule_context, seat_of}
use gd_server.Rules.{CardPattern, can_beat, type_value}
use gd_server.State.{GameState, player}
use gd_server.Tribute.Data.{cards_from_ids}

lead_score : ℕ → CardPattern → ℕ
lead_score card_count pattern =
    card_count * 10000 + pattern.primary_rank * 10 + type_value pattern.type

beat_score : ℕ → CardPattern → ℕ
beat_score card_count pattern =
    card_count * 10000 + pattern.primary_rank * 10 + type_value pattern.type

abbrev pub int_max : ℕ
int_max = 2147483647

-- `mask & (1 << i)`.
abbrev pub bit : ℕ → ℕ → Bool
bit mask i = mask / 2 ^ i % 2 == 1

-- The loop that takes the cards of a mask, from position `i` on.
unfoldable pub subset_of : ℕ → List ℕ → ℕ → List ℕ
subset_of mask [] i = []
subset_of mask (id ∷ ids) i =
    let rest = subset_of mask ids (i + 1) in if bit mask i then id ∷ rest else rest

-- The score of a pattern that the bot may play, and `none` for any other.
unfoldable pub score_of : GameState → ℕ → CardPattern → Option ℕ
unfolding lead_score beat_score
score_of s card_count pattern =
    if not pattern.is_valid
    then none
    else if not s.last_pattern.is_valid
    then some (lead_score card_count pattern)
    else if can_beat pattern s.last_pattern
    then some (beat_score card_count pattern)
    else none

-- The best play so far, with its score.
abbrev pub Best : Type 0
Best = Option (List ℕ) × ℕ

unfoldable pub improve : Option ℕ → List ℕ → Best → Best
improve none subset b = b
improve (some score) subset b = if ltb score b.1 then (some subset, score) else b

-- The loop over the masks, with `k` of them left, at `mask`.
unfoldable pub try_masks : GameState → RuleContext → List ℕ → ℕ → ℕ → Best → Option Best
unfolding improve
try_masks s ctx hand zero mask b = some b
try_masks s ctx hand (suc k) mask b =
    let subset = subset_of mask hand 0 in
    cards_from_ids s subset >>= λ cards.
    try_masks s ctx hand k (mask + 1)
      (improve (score_of s (length subset) (analyze cards ctx)) subset b)

-- `1 << 31` is negative, and the loop makes no round then.
unfoldable pub choose_from : GameState → RuleContext → List ℕ → Option (Option (List ℕ))
unfolding try_masks
choose_from s ctx [] = some none
choose_from s ctx hand =
    let n = length hand in
    if n == 31
    then some none
    else if ltb 31 n
    then none
    else (try_masks s ctx hand (2 ^ n - 1) 1 (none, int_max) >>= λ b. some b.0)

unfoldable pub choose_play : GameState → ℕ → RuleContext → Option (Option (List ℕ))
unfolding choose_from
choose_play s seat ctx =
    if leb s.player_count seat
    then some none
    else if (player s seat).has_finished
    then some none
    else choose_from s ctx (player s seat).hand

-- `chooseBotPlay` of the engine.
unfoldable pub choose_bot_play : GameEngine → ℕ → Option (Option (List ℕ))
choose_bot_play e player_id = elim (seat_of e.state player_id) [
  | none ↦ some none
  | some seat ↦ choose_play e.state seat (rule_context e)
]
