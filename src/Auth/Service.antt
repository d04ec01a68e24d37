-- ===== src/Auth/Service.antt =====
-- auth_service.h and auth_service.cpp: registration, login and the pictures of the accounts. The
-- clock, the salts that `generateSalt` and the tokens that `generateUuid` draw are arguments;
-- `hash_password`, the file of a picture and the decoding of base64 are arguments of the operations
-- that use them. A text is the sequence of its bytes, one character for each.
pub mod Refusals
pub mod Login
use Prim.Native.String.{len}
use text.Mathlib.Text.{◌==◌ as str_eq}
use gd_server.Auth.Tokens.{issue_token}
use gd_server.Auth.Users.{
  AuthService, UserRecord, bad_nickname, find_by_id, find_by_nickname, nickname_taken,
  register_user, registered, update_avatar, user_of_token,
}
use gd_server.Base.{Option, String, if◌then◌else◌, ltb, none, not, some, ℕ, ◌*◌, ◌==◌, ◌||◌}

-- `AuthResult`: the user and the token, or the status and the code of the error.
pub data AuthResult : Type 0 where
  logged_in : UserRecord → String → AuthResult
  auth_failed : ℕ → String → AuthResult

-- The end of a registration and of a login: the user gets a token.
unfoldable pub let_in : AuthService → ℕ → String → UserRecord → AuthService × AuthResult
let_in auth now token user =
    let (tokens, issued) = issue_token auth.tokens token now user.id in
    (record auth { tokens = tokens }, logged_in user issued)

unfoldable pub register_account :
    (String → String → String)
    → AuthService
    → ℕ
    → String
    → String
    → String
    → String
    → AuthService × AuthResult
register_account hash_password auth now salt token nickname password =
    let hash = hash_password password salt in
    if ltb (len password) 6 || ltb 64 (len password)
    then (auth, auth_failed 400 "invalid_password")
    else let (store, reply) = register_user auth.store nickname password hash salt in
      let known = record auth { store = store } in
      elim reply [
        | bad_nickname ↦ (known, auth_failed 409 "nickname_taken")
        | nickname_taken ↦ (known, auth_failed 409 "nickname_taken")
        | registered ↦ elim (find_by_nickname store nickname) [
          | none ↦ (known, auth_failed 500 "internal_error")
          | some user ↦ let_in known now token user
        ]
      ]

unfoldable pub login_account :
    (String → String → String)
    → AuthService
    → ℕ
    → String
    → String
    → String
    → AuthService × AuthResult
login_account hash_password auth now token nickname password =
    elim (find_by_nickname auth.store nickname) [
      | none ↦ (auth, auth_failed 401 "invalid_credentials")
      | some user ↦
          if not (str_eq (hash_password password user.salt) user.password_hash)
          then (auth, auth_failed 401 "invalid_credentials")
          else let_in auth now token user
    ]

-- `AvatarUpdateResult`.
pub data AvatarResult : Type 0 where
  avatar_set : UserRecord → AvatarResult
  avatar_failed : ℕ → String → AvatarResult

-- The part after the picture is saved.
store_avatar : AuthService → ℕ → String → AuthService × AvatarResult
store_avatar auth id path =
    let (store, saved) = update_avatar auth.store id path in
    let stored = record auth { store = store } in
    if not saved then (auth, avatar_failed 500 "save_failed") else elim (find_by_id store id) [
      | none ↦ (stored, avatar_failed 500 "internal_error")
      | some user ↦ (stored, avatar_set user)
    ]

-- `base64_decode` gives the bytes of the picture; `save_user_avatar` its path, when it is saved.
unfoldable pub set_avatar :
    (String → String)
    → (ℕ → String → String → Option String)
    → AuthService
    → ℕ
    → String
    → String
    → String
    → AuthService × AvatarResult
unfolding store_avatar
set_avatar base64_decode save_user_avatar auth now token image format =
    let (known, found) = user_of_token auth now token in
    let bytes = base64_decode image in
    elim found [
      | none ↦ (known, avatar_failed 401 "unauthorized")
      | some user ↦
          if str_eq image "" || (len bytes == 0 || ltb (512 * 1024) (len bytes))
          then (known, avatar_failed 400 "invalid_image")
          else elim (save_user_avatar user.id bytes format) [
            | none ↦ (known, avatar_failed 500 "save_failed")
            | some path ↦ store_avatar known user.id path
          ]
    ]
