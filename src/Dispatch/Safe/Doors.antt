-- ===== src/Dispatch/Safe/Doors.antt =====
-- The handlers that let players in and out keep the record of who is in which room.

use gd_server.Base.{>>=-eq-some, List, arith, inl, inr, some, ℕ, ◌≡◌}
use gd_server.Dispatch.After.{with_room_cases}
use gd_server.Dispatch.Data.{Effect, Env, Message, Server}
use gd_server.Dispatch.Lobby.{
  handle_create_room, handle_join_room, handle_leave, handle_login, join_info_from_session,
  login_as, mode_asked, room_joined, room_made,
}
use gd_server.Network.Sessions.{resolve_player_id}
use gd_server.Room.Registry.{create_room, handle_leave_room, join_room}
use gd_server.Room.Registry.Leaving.{handle_leave_room-IsConsistent}
use gd_server.Room.Registry.Members.{IsConsistent, create_room-IsConsistent, join_room-IsConsistent}

module _ (env : Env) (s t : Server) (session : ℕ) (msg : Message) (es : List Effect)
    (c : IsConsistent s.manager) where
  pub handle_login-IsConsistent :
      handle_login env s session msg ≡ some (t, es) → IsConsistent t.manager
  unfolding handle_login login_as
  handle_login-IsConsistent h = let e : s.manager ≡ t.manager = ground arith in rw (← e) c

  pub handle_create_room-IsConsistent :
      handle_create_room env s session msg ≡ some (t, es) → IsConsistent t.manager
  unfolding handle_create_room room_made
  handle_create_room-IsConsistent h =
      let a = (resolve_player_id env.to_string s.sessions session).1 in
      let sessions = (resolve_player_id env.to_string s.sessions session).0 in
      let profile = (join_info_from_session s.auth sessions env.steady_hours session).1 in
      let (made, h', g) =
        >>=-eq-some (create_room env.room_ids s.manager a profile (mode_asked msg)) _ h in
      let e : made.0 ≡ t.manager = ground arith in
      rw (← e) (
        create_room-IsConsistent env.room_ids s.manager made.0 a profile (mode_asked msg) made.1 h'
          c)

  pub handle_join_room-IsConsistent :
      handle_join_room env s session msg ≡ some (t, es) → IsConsistent t.manager
  unfolding handle_join_room room_joined
  handle_join_room-IsConsistent h =
      let a = (resolve_player_id env.to_string s.sessions session).1 in
      let sessions = (resolve_player_id env.to_string s.sessions session).0 in
      let profile = (join_info_from_session s.auth sessions env.steady_hours session).1 in
      let e : (join_room s.manager msg.room_id a profile).0 ≡ t.manager = ground arith in
      rw (← e) (join_room-IsConsistent s.manager msg.room_id a profile c)

  pub handle_leave-IsConsistent :
      handle_leave env s session msg ≡ some (t, es) → IsConsistent t.manager
  unfolding handle_leave
  handle_leave-IsConsistent h = elim (with_room_cases env s t session msg es _ h) [
    | inl (e, _, _) ↦ rw e c
    | inr (id, room, _, there, g) ↦
        let a = (resolve_player_id env.to_string s.sessions session).1 in
        let e : handle_leave_room s.manager a ≡ t.manager = ground arith in
        rw (← e) (handle_leave_room-IsConsistent s.manager a c)
  ]
