-- ===== src/Dispatch/Queue.antt =====
-- On which queue a message is handled.
use text.Mathlib.Text.{◌==◌ as str_eq}
use gd_server.Base.{
  Bool-cases, Option, Option-cases, String, [], ap, arith, false, inl, inr, none, refl, some, sym,
  true, ℕ, ◌∙◌, ◌∷◌, ◌≡◌, ◌≢◌, ◌⊎◌,
}
use gd_server.Dispatch.Data.{Env, Message, Server, handle_message, posts}
use gd_server.Dispatch.Route.{
  dispatch, dispatch_message, post_room_message, resolve_room_for_dispatch,
  should_run_on_room_queue,
}
use gd_server.Network.Sessions.{SessionManager, resolve_player_id}
use gd_server.Network.Sessions.Resolved.{resolve_player_id_total}
use gd_server.Room.Data.{Room}
use gd_server.Room.Registry.{RoomManager, find_room_by_player, get_room}

player-ne-zero :
    (to_string : ℕ → String) (m : SessionManager) (session : ℕ)
    → (resolve_player_id to_string m session).1 ≢ 0
player-ne-zero to_string m session e = elim (resolve_player_id_total to_string m session) [
  | inl (known, _, nz, same) ↦ nz (sym (ap (λ (o : SessionManager × ℕ). o.1) same) ∙ e)
  | inr fresh ↦ absurd (omega (arith, fresh.player, e))
]

-- The room that a message is for: the one that it names, if there is one; else the one that its
-- player is in, if there is one.
pub data IsFor (m : RoomManager) (player_id : ℕ) (msg : Message) : Option Room → Type 0 where
  by_name :
      (room : Room)
      → str_eq msg.room_id "" ≡ false
      → get_room m msg.room_id ≡ some room
      → IsFor m player_id msg (some room)
  by_player :
      (room : Room)
      → (str_eq msg.room_id "" ≡ true) ⊎ (get_room m msg.room_id ≡ none)
      → find_room_by_player m player_id ≡ some room
      → IsFor m player_id msg (some room)
  for_no_room :
      (str_eq msg.room_id "" ≡ true) ⊎ (get_room m msg.room_id ≡ none)
      → find_room_by_player m player_id ≡ none
      → IsFor m player_id msg none

-- What becomes of it: one task on the queue of the room, and no other change than to the sessions;
-- or, for no room, all that handling it does.
abbrev pub IsQueued : Env → Server → ℕ → Message → Option Room → Type 0
IsQueued env s session msg none =
    dispatch env s session (some msg)
    ≡ dispatch_message env
        (record s { sessions = (resolve_player_id env.to_string s.sessions session).0 }) session msg
IsQueued env s session msg (some room) =
    (known : SessionManager) × (dispatch env s session (some msg)
      ≡ some (record s { sessions = known }, posts room.room_id (handle_message session msg) ∷ []))
    × ((known ≡ s.sessions) ⊎ (known ≡ (resolve_player_id env.to_string s.sessions session).0))

-- A message that is not a login, a ping or the making of a room is for the room that it names, if
-- there is one, whoever sends it; and else, also when it names a room that there is not, for the
-- room that the player of the session is in. It is put on the queue of that room, to be handled
-- there, and changes no room now; when it is for no room, it is handled at once.
pub post_room_message_total :
    (env : Env) (s : Server) (session : ℕ) (msg : Message)
    → should_run_on_room_queue msg.type ≡ true
    → let resolved = resolve_player_id env.to_string s.sessions session in
      (room : Option Room) × IsFor s.manager resolved.1 msg room × IsQueued env s session msg room
unfolding dispatch post_room_message resolve_room_for_dispatch
post_room_message_total env s session msg queued =
    let (sessions, id) = resolve_player_id env.to_string s.sessions session in
    let positive = player-ne-zero env.to_string s.sessions session in
    elim (room_for s.manager id msg) [
      | inl (room, named, there) ↦
          (some room, by_name room named there, (s.sessions, ground arith, inl refl))
      | inr unnamed ↦ elim (Option-cases (find_room_by_player s.manager id)) [
        | inr (room, inside) ↦
            (some room, by_player room unnamed inside, (sessions, ground arith, inr refl))
        | inl nowhere ↦ (none, for_no_room unnamed nowhere, ground arith)
      ]
    ]
  where
    room_for :
        (m : RoomManager) (id : ℕ) (msg : Message)
        → ((room : Room) × (str_eq msg.room_id "" ≡ false) × (get_room m msg.room_id ≡ some room))
          ⊎ ((str_eq msg.room_id "" ≡ true) ⊎ (get_room m msg.room_id ≡ none))
    room_for m id msg = elim (Bool-cases (str_eq msg.room_id "")) [
      | inl blank ↦ inr (inl blank)
      | inr named ↦ elim (Option-cases (get_room m msg.room_id)) [
        | inl off ↦ inr (inr off)
        | inr (room, there) ↦ inl (room, named, there)
      ]
    ]
