-- ===== src/Rules.antt =====
-- server/include/game/card_pattern.h and server/src/game/rule_engine.cpp: which pattern beats which.

pub mod Order
use gd_server.Base.{ℕ, ◌<◌, ◌≡◌, Bool, true, false, not, ◌||◌, ltb, leb, ◌==◌, if◌then◌else◌, arith}

pub data CardType : Type 0 where
  invalid single pair triple triple_with_pair straight three_pairs two_triples : CardType
  straight_flush bomb joker_bomb : CardType

pub record CardPattern : Type 0 where
  pub type : CardType
  pub primary_rank : ℕ
  pub length : ℕ
  pub pair_rank : ℕ
  pub is_valid : Bool

-- `CardPattern::invalid()`.
abbrev pub no_pattern : CardPattern
no_pattern = record {
  type = invalid;
  primary_rank = 0;
  length = 0;
  pair_rank = 0;
  is_valid = false;
}

-- The number under the `enum class`.
abbrev pub type_value : CardType → ℕ
type_value invalid = 0
type_value single = 1
type_value pair = 2
type_value triple = 3
type_value triple_with_pair = 4
type_value straight = 5
type_value three_pairs = 6
type_value two_triples = 7
type_value straight_flush = 8
type_value bomb = 9
type_value joker_bomb = 10

abbrev type_eq : CardType → CardType → Bool
type_eq a b = type_value a == type_value b

is_bomb_type : CardType → Bool
is_bomb_type t = type_eq t bomb || type_eq t joker_bomb

-- The cases of the `switch` that fall through to one body.
same_length_beat : CardPattern → CardPattern → Bool
same_length_beat cur prev =
    if not (cur.length == prev.length) then false else ltb prev.primary_rank cur.primary_rank

bomb_beat : CardPattern → CardPattern → Bool
bomb_beat cur prev =
    if not (cur.length == prev.length)
    then ltb prev.length cur.length
    else ltb prev.primary_rank cur.primary_rank

type_beat : CardType → CardPattern → CardPattern → Bool
unfolding same_length_beat bomb_beat
type_beat single cur prev = same_length_beat cur prev
type_beat pair cur prev = same_length_beat cur prev
type_beat triple cur prev = same_length_beat cur prev
type_beat straight cur prev = same_length_beat cur prev
type_beat three_pairs cur prev = same_length_beat cur prev
type_beat two_triples cur prev = same_length_beat cur prev
type_beat straight_flush cur prev = same_length_beat cur prev
type_beat triple_with_pair cur prev =
    if not (cur.primary_rank == prev.primary_rank)
    then ltb prev.primary_rank cur.primary_rank
    else ltb prev.pair_rank cur.pair_rank
type_beat bomb cur prev = bomb_beat cur prev
type_beat joker_bomb cur prev = ltb prev.length cur.length
type_beat invalid cur prev = false

same_type_beat : CardPattern → CardPattern → Bool
unfolding type_beat
same_type_beat cur prev =
    if not (type_eq cur.type prev.type) then false else type_beat cur.type cur prev

-- The body of `canBeat` below its two guards, by the type of the pattern that is played.
joker_bomb_beats : CardType → CardPattern → CardPattern → Bool
joker_bomb_beats joker_bomb cur prev = ltb prev.length cur.length
joker_bomb_beats _ cur prev = true

straight_flush_beats : CardType → CardPattern → CardPattern → Bool
unfolding same_type_beat
straight_flush_beats joker_bomb cur prev = false
straight_flush_beats bomb cur prev = ltb prev.length 6
straight_flush_beats straight_flush cur prev = same_type_beat cur prev
straight_flush_beats _ cur prev = true

bomb_beats : CardType → CardPattern → CardPattern → Bool
unfolding bomb_beat
bomb_beats joker_bomb cur prev = false
bomb_beats straight_flush cur prev = leb 6 cur.length
bomb_beats bomb cur prev = bomb_beat cur prev
bomb_beats _ cur prev = true

plain_beats : CardType → CardPattern → CardPattern → Bool
unfolding same_type_beat
plain_beats joker_bomb cur prev = false
plain_beats straight_flush cur prev = false
plain_beats bomb cur prev = false
plain_beats _ cur prev = same_type_beat cur prev

beats_by_type : CardType → CardPattern → CardPattern → Bool
unfolding joker_bomb_beats straight_flush_beats bomb_beats plain_beats
beats_by_type joker_bomb cur prev = joker_bomb_beats prev.type cur prev
beats_by_type straight_flush cur prev = straight_flush_beats prev.type cur prev
beats_by_type bomb cur prev = bomb_beats prev.type cur prev
beats_by_type _ cur prev = plain_beats prev.type cur prev

-- The rule context is not read.
unfoldable pub can_beat : CardPattern → CardPattern → Bool
unfolding beats_by_type
can_beat current previous =
    if not current.is_valid
    then false
    else if not previous.is_valid
    then true
    else beats_by_type current.type current previous
