-- ===== src/Dispatch/After.antt =====
-- How a handler that needs a room begins, and what a change of one room leaves of the manager.
use gd_server.Base.{
  List, Option-cases, String, [], arith, find_at, find_text, inl, inr, none, put_text, some, ℕ, ◌∷◌,
  ◌≡◌, ◌⊎◌,
}
use gd_server.Cards.{not_in_room}
use gd_server.Dispatch.Data.{Effect, Env, Message, Out, Server, room_of, send_error, with_room}
use gd_server.Dispatch.Ids.{ids-contains}
use gd_server.Network.Sessions.{SessionManager, resolve_player_id}
use gd_server.Room.Data.{Room}
use gd_server.Room.Registry.{RoomManager}
use gd_server.Room.Registry.Members.{IsConsistent, changes-IsConsistent}
use gd_server.Room.Seats.Taken.{ids_of_room}

-- The manager as it was, or with another room under the id.
abbrev pub Touches : RoomManager → String → Room → RoomManager → Type 0
Touches m id room n = (n ≡ m) ⊎ (n ≡ record m { rooms = put_text m.rooms id room })

-- A handler refuses a player without a room, or goes on with the room.
pub with_room_cases :
    (env : Env) (s t : Server) (session : ℕ) (msg : Message) (es : List Effect)
    (rest : Server → ℕ → String → Room → Out)
    → with_room env s session msg rest ≡ some (t, es)
    → let known = resolve_player_id env.to_string s.sessions session in
      ((t ≡ record s { sessions = known.0 })
        × (es ≡ send_error session msg not_in_room ∷ [])
        × (room_of s.manager known.1 ≡ none))
      ⊎ ((id : String) × (room : Room) × (find_at s.manager.player_rooms known.1 ≡ some id)
          × (find_text s.manager.rooms id ≡ some room)
          × (rest (record s { sessions = known.0 }) known.1 id room ≡ some (t, es)))
unfolding with_room room_of
with_room_cases env s t session msg es rest h =
    let known = resolve_player_id env.to_string s.sessions session in
    elim (Option-cases (find_at s.manager.player_rooms known.1)) [
      | inl out ↦
          let g = rw (with_room, room_of, out) at h in
          inl (ground arith, ground arith, rw (room_of, out))
      | inr (id, at_id) ↦ elim (Option-cases (find_text s.manager.rooms id)) [
        | inl gone ↦
            let g = rw (with_room, room_of, at_id, gone) at h in
            inl (ground arith, ground arith, rw (room_of, at_id, gone))
        | inr (room, there) ↦
            inr (id, room, at_id, there, rw (with_room, room_of, at_id, there) at h)
      ]
    ]

-- A change of a room that keeps the ids of its players.
pub touched-IsConsistent :
    (m n : RoomManager) (id : String) (r t : Room)
    → find_text m.rooms id ≡ some r
    → ids_of_room t.players ≡ ids_of_room r.players
    → IsConsistent m
    → Touches m id t n
    → IsConsistent n
touched-IsConsistent m n id r t there same c (inl e) = rw e c
touched-IsConsistent m n id r t there same c (inr e) =
    rw e (changes-IsConsistent m id r t there (λ a human k. ids-contains r t a same k) c)

-- A handler that changes at most the room of the player, and lets nobody in or out.
pub by_room-IsConsistent :
    (env : Env) (s t : Server) (session : ℕ) (msg : Message) (es : List Effect)
    (rest : Server → ℕ → String → Room → Out)
    → ((sessions : SessionManager) (a : ℕ) (id : String) (room : Room)
        → rest (record s { sessions = sessions }) a id room ≡ some (t, es)
        → (r : Room) × (ids_of_room r.players ≡ ids_of_room room.players)
          × Touches s.manager id r t.manager)
    → with_room env s session msg rest ≡ some (t, es)
    → IsConsistent s.manager
    → IsConsistent t.manager
by_room-IsConsistent env s t session msg es rest change h c =
    elim (with_room_cases env s t session msg es rest h) [
      | inl (e, _, _) ↦ rw e c
      | inr (id, room, _, there, g) ↦
          let (r, same, touch) = change _ _ id room g in
          touched-IsConsistent s.manager t.manager id room r there same c touch
    ]
