-- ===== src/Room/Emotion.antt =====
-- server/include/room/emotion.h and server/src/room/emotion.cpp: which emotions there are, and how
-- often a player may send one. A time is a number of milliseconds of the steady clock.

use gd_server.Base.{
  Bool, List, erase_at, false, find_at, if◌then◌else◌, ltb, none, put_at, some, true, ℕ, ◌%◌, ◌+◌,
  ◌==◌, ◌||◌,
}

-- An emotion is a byte; the cast keeps the low eight bits.
unfoldable pub is_valid_emotion_type : ℕ → Bool
is_valid_emotion_type value = let v = value % 256 in v == 1 || v == 2 || v == 3

-- `lastSendTime_`, a map from players to times.
abbrev pub EmotionRateLimiter : Type 0
EmotionRateLimiter = List (ℕ × ℕ)

-- The limiter afterwards, and the result.
unfoldable pub try_acquire : EmotionRateLimiter → ℕ → ℕ → EmotionRateLimiter × Bool
try_acquire limiter now player_id = elim (find_at limiter player_id) [
  | none ↦ (put_at limiter player_id now, true)
  | some last ↦
      if ltb now (last + 1000) then (limiter, false) else (put_at limiter player_id now, true)
]

unfoldable pub remove_limit : EmotionRateLimiter → ℕ → EmotionRateLimiter
remove_limit limiter player_id = erase_at limiter player_id
