-- ===== src/Network/Sessions.antt =====
-- session_manager.h and session_manager.cpp: the sessions, and the session of each player. The maps
-- are association lists; the token that `generateUuid` draws is an argument. Ids and generations are
-- 64 bits wide and only count up; they are not bounded here.
pub mod Bound
pub mod Resolved
use Prim.Native.String.{◌++◌ as append}
use text.Mathlib.Text.{◌==◌ as str_eq}
use gd_server.Base.{
  Bool, List, Option, String, [], erase_at, false, find_at, has_at, if◌then◌else◌, ltb, none,
  put_at, some, true, ℕ, ◌+◌, ◌==◌, ◌>>=◌,
}

pub record Session : Type 0 where
  pub session_id : ℕ
  pub player_id : ℕ
  pub token : String
  pub nickname : String
  pub authenticated : Bool
  pub bind_generation : ℕ

-- `Session{}` with its id.
abbrev pub blank_session : ℕ → Session
blank_session id = record {
  session_id = id;
  player_id = 0;
  token = "";
  nickname = "";
  authenticated = false;
  bind_generation = 0;
}

pub record SessionManager : Type 0 where
  pub next_session_id : ℕ
  pub sessions : List (ℕ × Session)
  pub player_sessions : List (ℕ × ℕ)
  pub player_bind_generation : List (ℕ × ℕ)

-- `SessionManager{}`.
abbrev pub no_sessions : SessionManager
no_sessions = record {
  next_session_id = 1;
  sessions = [];
  player_sessions = [];
  player_bind_generation = [];
}

unfoldable pub ensure_session : SessionManager → ℕ → SessionManager
ensure_session m id =
    if has_at m.sessions id
    then m
    else record m { sessions = put_at m.sessions id (blank_session id) }

unfoldable pub create_session : SessionManager → String → SessionManager × ℕ
create_session m token =
    let id = m.next_session_id in
    let s = record (blank_session id) { token = token } in
    (record m { next_session_id = id + 1; sessions = put_at m.sessions id s }, id)

-- The player goes on the map only if it is this session's.
unbind : List (ℕ × ℕ) → ℕ → ℕ → List (ℕ × ℕ)
unbind players player_id id = elim (find_at players player_id) [
  | none ↦ players
  | some other ↦ if other == id then erase_at players player_id else players
]

unfoldable pub remove_session : SessionManager → ℕ → SessionManager
unfolding unbind
remove_session m id = elim (find_at m.sessions id) [
  | none ↦ m
  | some s ↦ record m {
    sessions = erase_at m.sessions id;
    player_sessions =
        if ltb 0 s.player_id then unbind m.player_sessions s.player_id id else m.player_sessions;
  }
]

unfoldable pub authenticate : SessionManager → ℕ → String → SessionManager × Bool
authenticate m id token = elim (find_at m.sessions id) [
  | none ↦ (m, false)
  | some s ↦
      let known = record s { authenticated = true; token = token } in
      if str_eq token ""
      then (m, false)
      else (record m { sessions = put_at m.sessions id known }, true)
]

unfoldable pub get_session : SessionManager → ℕ → Option Session
get_session m id = find_at m.sessions id

unfoldable pub find_by_player_id : SessionManager → ℕ → Option Session
find_by_player_id m player_id = find_at m.player_sessions player_id >>= λ id. find_at m.sessions id

unfoldable pub find_session_id_by_player_id : SessionManager → ℕ → ℕ
find_session_id_by_player_id m player_id = elim (find_at m.player_sessions player_id) [
  | none ↦ 0
  | some id ↦ id
]

generation_of : List (ℕ × ℕ) → ℕ → ℕ
generation_of generations player_id = elim (find_at generations player_id) [
  | none ↦ 1
  | some n ↦ n + 1
]

-- The id that a player without one gets.
abbrev pub player_of : ℕ → ℕ → ℕ
player_of id player_id = if player_id == 0 then 10000 + id else player_id

bound_session : SessionManager → ℕ → ℕ → String → Session → Session
unfolding generation_of
bound_session m id player_id nickname s = record s {
  player_id = player_id;
  nickname = nickname;
  authenticated = true;
  bind_generation = generation_of m.player_bind_generation player_id;
}

unfoldable pub bind_player : SessionManager → ℕ → ℕ → String → SessionManager × ℕ
unfolding bound_session generation_of
bind_player m id asked nickname = elim (find_at m.sessions id) [
  | none ↦ (m, 0)
  | some s ↦
      let player_id = player_of id asked in
      let n = generation_of m.player_bind_generation player_id in
      (
        record m {
          sessions = put_at m.sessions id (bound_session m id player_id nickname s);
          player_sessions = put_at m.player_sessions player_id id;
          player_bind_generation = put_at m.player_bind_generation player_id n;
        },
        player_id,
      )
]

-- `resolvePlayerId` of the dispatcher; `std::to_string` is an argument.
unfoldable pub resolve_player_id : (ℕ → String) → SessionManager → ℕ → SessionManager × ℕ
resolve_player_id to_string m id =
    let known = ensure_session m id in
    let bound = bind_player known id 0 (append "Player" (to_string id)) in
    elim (get_session known id) [
      | none ↦ bound
      | some s ↦ if s.player_id == 0 then bound else (known, s.player_id)
    ]
