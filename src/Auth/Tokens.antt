-- ===== src/Auth/Tokens.antt =====
-- token_manager.h and token_manager.cpp: who is logged in. A time is a number of hours of the steady
-- clock; the clock and the token that `generateUuid` draws are arguments.
pub mod Issued
use text.Mathlib.Text.{◌==◌ as str_eq}
use gd_server.Base.{
  List, Option, String, [], erase_text, find_text, if◌then◌else◌, ltb, none, put_text, some, ℕ, ◌*◌,
  ◌+◌, ◌==◌, ◌∷◌,
}

pub record TokenEntry : Type 0 where
  pub user_id : ℕ
  pub expires_at : ℕ

abbrev pub k_token_ttl_days : ℕ
k_token_ttl_days = 30

-- `tokens_`, a map from tokens to entries.
abbrev pub TokenManager : Type 0
TokenManager = List (String × TokenEntry)

-- The loop that erases the tokens of a user.
unfoldable pub revoke_all_for_user : TokenManager → ℕ → TokenManager
revoke_all_for_user [] user_id = []
revoke_all_for_user ((t, e) ∷ m) user_id =
    let rest = revoke_all_for_user m user_id in if e.user_id == user_id then rest else (t, e) ∷ rest

unfoldable pub issue_token : TokenManager → String → ℕ → ℕ → TokenManager × String
issue_token m token now user_id = (
  put_text (revoke_all_for_user m user_id) token
      (record { user_id = user_id; expires_at = now + 24 * k_token_ttl_days }),
  token,
)

-- The manager afterwards, and the user.
unfoldable pub validate_token : TokenManager → ℕ → String → TokenManager × Option ℕ
validate_token m now token = if str_eq token "" then (m, none) else elim (find_text m token) [
  | none ↦ (m, none)
  | some e ↦ if ltb e.expires_at now then (erase_text m token, none) else (m, some e.user_id)
]

unfoldable pub revoke_token : TokenManager → String → TokenManager
revoke_token m token = erase_text m token
