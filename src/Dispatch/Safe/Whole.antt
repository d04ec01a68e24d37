-- ===== src/Dispatch/Safe/Whole.antt =====
-- Whatever messages come in and whatever tasks run, the server knows who is in which room.

use gd_server.Auth.Users.{AuthService}
use gd_server.Base.{
  >>=-eq-some, Bool, Bool-cases, List, Option, String, [], arith, find_text, inl, inr, none, some,
  true, ℕ, ◌<◌, ◌≡◌, ◌⊎◌,
}
use gd_server.Dispatch.After.{touched-IsConsistent}
use gd_server.Dispatch.Bots.{execute_bot_tribute_actions, execute_bot_turn}
use gd_server.Dispatch.Data.{
  Effect, Env, Message, Server, Task, bot_tributes, bot_turn, handle_message, room_of, show_state,
  sync_profile,
}
use gd_server.Dispatch.Ids.{sync_player_profile-ids}
use gd_server.Dispatch.Route.{
  Kind, change_seat_kind, create_room_kind, dispatch, dispatch_message, handle_kind, join_room_kind,
  kind_of, leave_room, login, pass_kind, ping, play_cards_kind, post_room_message, ready_kind,
  reconnect, request_dismiss_kind, resolve_room_for_dispatch, run_task, seat_chat,
  send_emotion_kind, set_room_options, should_run_on_room_queue, spectate_teammate, start_game_kind,
  submit_return_kind, submit_tribute_kind, unknown_kind, unready_kind, voice_join, voice_signal,
  voice_speaking, voice_state, vote_dismiss_kind,
}
use gd_server.Dispatch.Safe.Doors.{
  handle_create_room-IsConsistent, handle_join_room-IsConsistent, handle_leave-IsConsistent,
  handle_login-IsConsistent,
}
use gd_server.Dispatch.Safe.Games.{
  handle_pass-IsConsistent, handle_play_cards-IsConsistent, handle_start_game-IsConsistent,
  handle_submit_return-IsConsistent, handle_submit_tribute-IsConsistent,
}
use gd_server.Dispatch.Safe.Lobby.{
  handle_change_seat-IsConsistent, handle_ready-IsConsistent, handle_set_room_options-IsConsistent,
  handle_unready-IsConsistent,
}
use gd_server.Dispatch.Safe.Talk.{
  handle_reconnect-IsConsistent, handle_request_dismiss-IsConsistent, handle_seat_chat-IsConsistent,
  handle_send_emotion-IsConsistent, handle_spectate_teammate-IsConsistent,
  handle_voice_join-IsConsistent, handle_voice_signal-IsConsistent,
  handle_voice_speaking-IsConsistent, handle_voice_state-IsConsistent,
  handle_vote_dismiss-IsConsistent,
}
use gd_server.Dispatch.Stay.{execute_bot_tribute_actions-ids, execute_bot_turn-ids}
use gd_server.Dispatch.Talk.{handle_ping}
use gd_server.Network.Sessions.{no_sessions}
use gd_server.Room.Data.{Room, contains_player, k_bot_id_base}
use gd_server.Room.Registry.{new_manager, set_room_executor}
use gd_server.Room.Registry.Members.{IsConsistent}
use gd_server.Room.Seats.{sync_player_profile}

handle_kind-IsConsistent :
    (kind : Kind) (env : Env) (s t : Server) (session : ℕ) (msg : Message) (es : List Effect)
    → IsConsistent s.manager
    → handle_kind kind env s session msg ≡ some (t, es)
    → IsConsistent t.manager
unfolding handle_kind handle_ping
handle_kind-IsConsistent login env s t session msg es c h =
    handle_login-IsConsistent env s t session msg es c h
handle_kind-IsConsistent create_room_kind env s t session msg es c h =
    handle_create_room-IsConsistent env s t session msg es c h
handle_kind-IsConsistent join_room_kind env s t session msg es c h =
    handle_join_room-IsConsistent env s t session msg es c h
handle_kind-IsConsistent leave_room env s t session msg es c h =
    handle_leave-IsConsistent env s t session msg es c h
handle_kind-IsConsistent ready_kind env s t session msg es c h =
    handle_ready-IsConsistent env s t session msg es c h
handle_kind-IsConsistent unready_kind env s t session msg es c h =
    handle_unready-IsConsistent env s t session msg es c h
handle_kind-IsConsistent change_seat_kind env s t session msg es c h =
    handle_change_seat-IsConsistent env s t session msg es c h
handle_kind-IsConsistent set_room_options env s t session msg es c h =
    handle_set_room_options-IsConsistent env s t session msg es c h
handle_kind-IsConsistent start_game_kind env s t session msg es c h =
    handle_start_game-IsConsistent env s t session msg es c h
handle_kind-IsConsistent play_cards_kind env s t session msg es c h =
    handle_play_cards-IsConsistent env s t session msg es c h
handle_kind-IsConsistent pass_kind env s t session msg es c h =
    handle_pass-IsConsistent env s t session msg es c h
handle_kind-IsConsistent submit_tribute_kind env s t session msg es c h =
    handle_submit_tribute-IsConsistent env s t session msg es c h
handle_kind-IsConsistent submit_return_kind env s t session msg es c h =
    handle_submit_return-IsConsistent env s t session msg es c h
handle_kind-IsConsistent spectate_teammate env s t session msg es c h =
    handle_spectate_teammate-IsConsistent env s t session msg es c h
handle_kind-IsConsistent reconnect env s t session msg es c h =
    handle_reconnect-IsConsistent env s t session msg es c h
handle_kind-IsConsistent request_dismiss_kind env s t session msg es c h =
    handle_request_dismiss-IsConsistent env s t session msg es c h
handle_kind-IsConsistent vote_dismiss_kind env s t session msg es c h =
    handle_vote_dismiss-IsConsistent env s t session msg es c h
handle_kind-IsConsistent voice_state env s t session msg es c h =
    handle_voice_state-IsConsistent env s t session msg es c h
handle_kind-IsConsistent seat_chat env s t session msg es c h =
    handle_seat_chat-IsConsistent env s t session msg es c h
handle_kind-IsConsistent send_emotion_kind env s t session msg es c h =
    handle_send_emotion-IsConsistent env s t session msg es c h
handle_kind-IsConsistent voice_speaking env s t session msg es c h =
    handle_voice_speaking-IsConsistent env s t session msg es c h
handle_kind-IsConsistent voice_join env s t session msg es c h =
    handle_voice_join-IsConsistent env s t session msg es c h
handle_kind-IsConsistent voice_signal env s t session msg es c h =
    handle_voice_signal-IsConsistent env s t session msg es c h
handle_kind-IsConsistent ping env s t session msg es c h =
    let e : s.manager ≡ t.manager = ground arith in rw (← e) c
handle_kind-IsConsistent unknown_kind env s t session msg es c h =
    let e : s.manager ≡ t.manager = ground arith in rw (← e) c

-- What the server does, one call at a time: a message that arrives, and a task that the queue of a
-- room runs.
pub data ServerStep (s : Server) : Server → Type 0 where
  receives :
      (env : Env) (session : ℕ) (msg : Option Message) (t : Server) (es : List Effect)
      → dispatch env s session msg ≡ some (t, es)
      → ServerStep s t
  works :
      (env : Env) (id : String) (room : Room) (task : Task) (t : Server) (es : List Effect)
      → find_text s.manager.rooms id ≡ some room
      → run_task env s id room task ≡ some (t, es)
      → ServerStep s t

-- The server when it starts, with its stores and settings.
pub data ServerReach : Server → Type 0 where
  boots :
      (auth : AuthService) (live_kit : Bool)
      → ServerReach (record {
        manager = set_room_executor new_manager true;
        sessions = no_sessions;
        auth = auth;
        limiter = [];
        live_kit_enabled = live_kit;
      })
  serves : {s t : Server} → ServerReach s → ServerStep s t → ServerReach t

resolve-manager :
    (env : Env) (s : Server) (session : ℕ) (msg : Message)
    → (resolve_room_for_dispatch env s session msg).0.manager ≡ s.manager
unfolding resolve_room_for_dispatch
resolve-manager env s session msg = ground arith

post_room_message_cases :
    (env : Env) (s t : Server) (session : ℕ) (msg : Message) (es : List Effect)
    → post_room_message env s session msg ≡ some (t, es)
    → let known = (resolve_room_for_dispatch env s session msg).0 in
      (t ≡ known) ⊎ (dispatch_message env known session msg ≡ some (t, es))
unfolding post_room_message
post_room_message_cases env s t session msg es h = ground arith

dispatch-IsConsistent :
    (env : Env) (s t : Server) (session : ℕ) (msg : Option Message) (es : List Effect)
    → IsConsistent s.manager
    → dispatch env s session msg ≡ some (t, es)
    → IsConsistent t.manager
unfolding dispatch dispatch_message
dispatch-IsConsistent env s t session none es c h =
    let e : s.manager ≡ t.manager = ground arith in rw (← e) c
dispatch-IsConsistent env s t session (some msg) es c h =
    elim (Bool-cases (should_run_on_room_queue msg.type)) [
      | inr at_once ↦ handle_kind-IsConsistent (kind_of msg) env s t session msg es c (ground arith)
      | inl queued ↦
          let known = (resolve_room_for_dispatch env s session msg).0 in
          let same = resolve-manager env s session msg in
          elim (post_room_message_cases env s t session msg es (ground arith)) [
            | inl e ↦ rw (e, same) c
            | inr g ↦
                handle_kind-IsConsistent (kind_of msg) env known t session msg es (rw same c) g
          ]
    ]

run_task-IsConsistent :
    (env : Env) (s t : Server) (id : String) (room : Room) (task : Task) (es : List Effect)
    → find_text s.manager.rooms id ≡ some room
    → IsConsistent s.manager
    → run_task env s id room task ≡ some (t, es)
    → IsConsistent t.manager
unfolding run_task dispatch_message
run_task-IsConsistent env s t id room (bot_turn bot) es there c h =
    let (o, ho, back) = >>=-eq-some (execute_bot_turn env room bot) _ h in
    touched-IsConsistent s.manager t.manager id room o.0 there
      (execute_bot_turn-ids env room bot o ho) c (inr (ground arith))
run_task-IsConsistent env s t id room bot_tributes es there c h =
    let (o, ho, back) = >>=-eq-some (execute_bot_tribute_actions room) _ h in
    touched-IsConsistent s.manager t.manager id room o.0 there
      (execute_bot_tribute_actions-ids room o ho) c (inr (ground arith))
run_task-IsConsistent env s t id room (sync_profile session a profile phase) es there c h =
    touched-IsConsistent s.manager t.manager id room (sync_player_profile room a profile).0 there
      (sync_player_profile-ids room a profile) c (inr (ground arith))
run_task-IsConsistent env s t id room show_state es there c h =
    let e : s.manager ≡ t.manager = ground arith in rw (← e) c
run_task-IsConsistent env s t id room (handle_message session msg) es there c h =
    handle_kind-IsConsistent (kind_of msg) env s t session msg es c h

ServerStep-IsConsistent :
    {s t : Server} → ServerStep s t → IsConsistent s.manager → IsConsistent t.manager
ServerStep-IsConsistent {s = s} (receives env session msg t es h) c =
    dispatch-IsConsistent env s t session msg es c h
ServerStep-IsConsistent {s = s} (works env id room task t es there h) c =
    run_task-IsConsistent env s t id room task es there c h

ServerReach-IsConsistent : {s : Server} → ServerReach s → IsConsistent s.manager
unfolding set_room_executor
ServerReach-IsConsistent (boots auth live_kit) = record {
  members = λ id r a h k human. absurd (cc h);
}
ServerReach-IsConsistent (serves before step) =
    ServerStep-IsConsistent step (ServerReach-IsConsistent before)

-- Whatever messages the clients send, and whatever tasks the rooms run, in any order: a human player
-- who is in a room is found there by the look-up that the handlers begin with, and is in no second
-- room.
pub served_player_room :
    (s : Server) (id : String) (r : Room) (a : ℕ)
    → ServerReach s
    → find_text s.manager.rooms id ≡ some r
    → contains_player r a ≡ true
    → a < k_bot_id_base
    → (room_of s.manager a ≡ some (id, r))
      × ((other : String) (q : Room)
          → find_text s.manager.rooms other ≡ some q
          → contains_player q a ≡ true
          → other ≡ id)
unfolding room_of
served_player_room s id r a reach h k human =
    let c = ServerReach-IsConsistent reach in
    let there = c.members id r a h k human in
    (rw (there, h), λ other q h' k'. cc (there, c.members other q a h' k' human))
