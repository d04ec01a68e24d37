-- ===== src/Auth/Users.antt =====
-- user.h, user_store.cpp and auth_service.cpp: the accounts, and who a token stands for. The file
-- that the store is saved to is no part of its state. The clock is an argument. A text is the
-- sequence of its bytes, one character for each.
pub mod Unique
use Prim.Native.Char.{Char, code}
use Prim.Native.String.{[] as nil, ◌∷◌ as cons, len}
use text.Mathlib.Text.{◌==◌ as str_eq}
use gd_server.Auth.Tokens.{TokenManager, validate_token}
use gd_server.Base.{
  Bool, List, Option, String, [], false, if◌then◌else◌, leb, ltb, none, not, some, true, ℕ, ◌&&◌,
  ◌++◌, ◌+◌, ◌==◌, ◌>>=◌, ◌||◌, ◌∷◌,
}

pub record UserStats : Type 0 where
  pub total_games : ℕ
  pub wins : ℕ
  pub losses : ℕ

pub record UserRecord : Type 0 where
  pub id : ℕ
  pub nickname : String
  pub password : String
  pub password_hash : String
  pub salt : String
  pub avatar : String
  pub avatar_preset : String
  pub stats : UserStats

-- `UserRecord{}`.
abbrev pub blank_user : UserRecord
blank_user = record {
  id = 0;
  nickname = "";
  password = "";
  password_hash = "";
  salt = "";
  avatar = "";
  avatar_preset = "";
  stats = record { total_games = 0; wins = 0; losses = 0 };
}

pub record UserStore : Type 0 where
  pub next_id : ℕ
  pub users : List UserRecord

-- The store when there is no file yet.
abbrev pub no_users : UserStore
no_users = record { next_id = 10001; users = [] }

abbrev is_blank : ℕ → Bool
is_blank c = c == 32 || (leb 9 c && leb c 13)

-- The two loops of `trim`: one goes on from the front, one from the end.
trim_front : String → String
trim_front nil = nil
trim_front (cons c s) = let rest = trim_front s in if is_blank (code c) then rest else cons c s

trim_end : String → String
trim_end nil = nil
trim_end (cons c s) =
    let rest = trim_end s in if is_blank (code c) && str_eq rest "" then nil else cons c rest

unfoldable pub trim : String → String
unfolding trim_front trim_end
trim s = trim_end (trim_front s)

pub first_named : List UserRecord → String → Option UserRecord
first_named [] name = none
first_named (u ∷ us) name = if str_eq u.nickname name then some u else first_named us name

unfoldable pub find_by_nickname : UserStore → String → Option UserRecord
unfolding first_named
find_by_nickname store nickname = first_named store.users (trim nickname)

unfoldable pub first_with_id : List UserRecord → ℕ → Option UserRecord
first_with_id [] id = none
first_with_id (u ∷ us) id = if u.id == id then some u else first_with_id us id

unfoldable pub find_by_id : UserStore → ℕ → Option UserRecord
unfolding first_with_id
find_by_id store id = first_with_id store.users id

-- What `registerUser` answers.
pub data Registration : Type 0 where
  registered bad_nickname nickname_taken : Registration

abbrev pub new_user : ℕ → String → String → String → String → UserRecord
new_user id nickname password hash salt = record blank_user {
  id = id;
  nickname = nickname;
  password = password;
  password_hash = hash;
  salt = salt;
  avatar_preset = "avatar_2";
}

unfoldable pub register_user :
    UserStore → String → String → String → String → UserStore × Registration
unfolding first_named
register_user store nickname password hash salt =
    let nick = trim nickname in
    let user = new_user store.next_id nick password hash salt in
    if ltb (len nick) 2 || ltb 16 (len nick)
    then (store, bad_nickname)
    else elim (first_named store.users nick) [
      | some u ↦ (store, nickname_taken)
      | none ↦ (
        record store { next_id = store.next_id + 1; users = store.users ++ user ∷ [] },
        registered,
      )
    ]

-- The loop that changes the first user with the id; `none` where there is none.
pub change_user : (UserRecord → UserRecord) → List UserRecord → ℕ → Option (List UserRecord)
change_user change [] id = none
change_user change (u ∷ us) id =
    let rest = change_user change us id in
    if u.id == id then some (change u ∷ us) else (rest >>= λ vs. some (u ∷ vs))

abbrev with_users : UserStore → Option (List UserRecord) → UserStore × Bool
with_users store none = (store, false)
with_users store (some users) = (record store { users = users }, true)

unfoldable pub update_stats : UserStore → ℕ → UserStats → UserStore × Bool
unfolding change_user
update_stats store id stats =
    with_users store (change_user (λ u. record u { stats = stats }) store.users id)

unfoldable pub update_avatar : UserStore → ℕ → String → UserStore × Bool
unfolding change_user
update_avatar store id path =
    with_users store (change_user (λ u. record u { avatar = path }) store.users id)

unfoldable pub set_avatar_preset : UserStore → ℕ → String → UserStore × Bool
unfolding change_user
set_avatar_preset store id preset =
    with_users store (change_user (λ u. record u { avatar_preset = preset }) store.users id)

pub record AuthService : Type 0 where
  pub tokens : TokenManager
  pub store : UserStore

-- The service afterwards, and the user.
unfoldable pub user_of_token : AuthService → ℕ → String → AuthService × Option UserRecord
user_of_token auth now token =
    let (tokens, found) = validate_token auth.tokens now token in
    (record auth { tokens = tokens }, found >>= λ id. find_by_id auth.store id)

is_allowed_avatar_preset : String → Bool
is_allowed_avatar_preset id =
    str_eq id "avatar_1"
    || str_eq id "avatar_2"
    || str_eq id "avatar_3"
    || str_eq id "avatar_4"
    || str_eq id "avatar_5"

-- The answer of `updateAvatarPreset`: the user, or the status and the code of the error.
pub data PresetAnswer : Type 0 where
  preset_set : UserRecord → PresetAnswer
  preset_failed : ℕ → String → PresetAnswer

-- The part after the checks.
store_preset : AuthService → ℕ → String → AuthService × PresetAnswer
store_preset auth id preset =
    let (store, saved) = set_avatar_preset auth.store id preset in
    let stored = record auth { store = store } in
    if not saved then (auth, preset_failed 500 "save_failed") else elim (find_by_id store id) [
      | none ↦ (stored, preset_failed 500 "internal_error")
      | some user ↦ (stored, preset_set user)
    ]

unfoldable pub update_avatar_preset : AuthService → ℕ → String → String → AuthService × PresetAnswer
unfolding is_allowed_avatar_preset store_preset
update_avatar_preset auth now token preset =
    let (known, found) = user_of_token auth now token in
    elim found [
      | none ↦ (known, preset_failed 401 "unauthorized")
      | some user ↦
          if not (str_eq preset "") && not (is_allowed_avatar_preset preset)
          then (known, preset_failed 400 "invalid_preset")
          else store_preset known user.id preset
    ]
