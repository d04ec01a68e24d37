-- ===== src/Dispatch/Safe/Talk.antt =====
-- The handlers of talk and of votes keep the record of who is in which room.

use gd_server.Base.{
  Bool-cases, List, Option-cases, String, arith, find_text, if◌then◌else◌, inl, inr, not, put_text,
  refl, some, ℕ, ◌||◌, ◌∷◌, ◌≡◌,
}
use gd_server.Dispatch.After.{by_room-IsConsistent, touched-IsConsistent, with_room_cases}
use gd_server.Dispatch.Data.{
  Effect, Env, Message, Server, answer, put_room, sends, vote_data, with_room,
}
use gd_server.Dispatch.Dismiss.{
  dissolve_room, handle_request_dismiss, handle_vote_dismiss, settle_vote, vote_counted, vote_news,
}
use gd_server.Dispatch.Ids.{request_dismiss-ids, set_spectate_target-ids, vote_dismiss-ids}
use gd_server.Dispatch.Talk.{
  handle_reconnect, handle_seat_chat, handle_send_emotion, handle_spectate_teammate,
  handle_voice_join, handle_voice_signal, handle_voice_speaking, handle_voice_state, join_voice,
  send_emotion,
}
use gd_server.Dispatch.Wire.{as_int, extract_json_bool_from_data, extract_json_uint_from_data}
use gd_server.Network.Sessions.{SessionManager, resolve_player_id}
use gd_server.Room.Data.{Room, next_emotion_event_id}
use gd_server.Room.Registry.{remove_room}
use gd_server.Room.Registry.Leaving.{remove_room-IsConsistent}
use gd_server.Room.Registry.Members.{IsConsistent}
use gd_server.Room.Rounds.{cancel_dismiss_vote, request_dismiss, vote_dismiss}
use gd_server.Room.Seats.Taken.{ids_of_room}
use gd_server.Room.Spectators.{set_spectate_target}
use gd_server.Room.Vote.{all_agreed, has_rejection}

module _ (env : Env) (s t : Server) (session : ℕ) (msg : Message) (es : List Effect)
    (c : IsConsistent s.manager) where
  pub handle_spectate_teammate-IsConsistent :
      handle_spectate_teammate env s session msg ≡ some (t, es) → IsConsistent t.manager
  unfolding handle_spectate_teammate
  handle_spectate_teammate-IsConsistent h =
      by_room-IsConsistent env s t session msg es _
        (λ sessions a id room g.
          elim (Option-cases
            (as_int (extract_json_uint_from_data msg.data_json "target_seat_index"))) [
              | inl off ↦ (room, refl, inl (ground arith))
              | inr (seat, e) ↦ (
                (set_spectate_target room a seat).0,
                set_spectate_target-ids room a seat,
                ground arith,
              )
            ])
        h c

  pub handle_reconnect-IsConsistent :
      handle_reconnect env s session msg ≡ some (t, es) → IsConsistent t.manager
  unfolding handle_reconnect
  handle_reconnect-IsConsistent h =
      by_room-IsConsistent env s t session msg es _
        (λ sessions a id room g. (room, refl, inl (ground arith))) h c

  pub handle_seat_chat-IsConsistent :
      handle_seat_chat env s session msg ≡ some (t, es) → IsConsistent t.manager
  unfolding handle_seat_chat
  handle_seat_chat-IsConsistent h =
      by_room-IsConsistent env s t session msg es _
        (λ sessions a id room g. (room, refl, inl (ground arith))) h c

  pub handle_send_emotion-IsConsistent :
      handle_send_emotion env s session msg ≡ some (t, es) → IsConsistent t.manager
  unfolding handle_send_emotion send_emotion next_emotion_event_id
  handle_send_emotion-IsConsistent h =
      by_room-IsConsistent env s t session msg es _
        (λ sessions a id room g. ((next_emotion_event_id room).0, refl, ground arith)) h c

  pub handle_voice_speaking-IsConsistent :
      handle_voice_speaking env s session msg ≡ some (t, es) → IsConsistent t.manager
  unfolding handle_voice_speaking
  handle_voice_speaking-IsConsistent h =
      by_room-IsConsistent env s t session msg es _
        (λ sessions a id room g. (room, refl, inl (ground arith))) h c

  pub handle_voice_state-IsConsistent :
      handle_voice_state env s session msg ≡ some (t, es) → IsConsistent t.manager
  unfolding handle_voice_state
  handle_voice_state-IsConsistent h =
      by_room-IsConsistent env s t session msg es _
        (λ sessions a id room g. (room, refl, inl (ground arith))) h c

  pub handle_voice_signal-IsConsistent :
      handle_voice_signal env s session msg ≡ some (t, es) → IsConsistent t.manager
  unfolding handle_voice_signal
  handle_voice_signal-IsConsistent h =
      by_room-IsConsistent env s t session msg es _
        (λ sessions a id room g. (room, refl, inl (ground arith))) h c

  pub handle_voice_join-IsConsistent :
      handle_voice_join env s session msg ≡ some (t, es) → IsConsistent t.manager
  unfolding handle_voice_join join_voice
  handle_voice_join-IsConsistent h = elim (Bool-cases s.live_kit_enabled) [
    | inr off ↦ let e : s.manager ≡ t.manager = ground arith in rw (← e) c
    | inl on ↦
        let g : with_room env s session msg (join_voice env session msg) ≡ some (t, es) =
          ground arith in
        by_room-IsConsistent env s t session msg es (join_voice env session msg)
          (λ sessions a id room k. (room, refl, inl (ground arith))) g c
  ]

  -- The room of a vote stays as it is but for the vote, and goes if all have agreed.
  settled-IsConsistent :
      (sessions : SessionManager) (id : String) (room r : Room) (told : List Effect)
      → find_text s.manager.rooms id ≡ some room
      → ids_of_room r.players ≡ ids_of_room room.players
      → settle_vote (put_room (record s { sessions = sessions }) id r) r told ≡ some (t, es)
      → IsConsistent t.manager
  unfolding settle_vote dissolve_room
  settled-IsConsistent sessions id room r told there same g =
      let m = record (s.manager) { rooms = put_text s.manager.rooms id r } in
      let kept = touched-IsConsistent s.manager m id room r there same c (inr refl) in
      elim (Bool-cases (all_agreed r.dismiss_vote)) [
        | inl agreed ↦
            let e : remove_room m r.room_id ≡ t.manager = ground arith in
            rw (← e) (remove_room-IsConsistent m r.room_id kept)
        | inr open_vote ↦ let e : m ≡ t.manager = ground arith in rw (← e) kept
      ]

  pub handle_request_dismiss-IsConsistent :
      handle_request_dismiss env s session msg ≡ some (t, es) → IsConsistent t.manager
  unfolding handle_request_dismiss
  handle_request_dismiss-IsConsistent h = elim (with_room_cases env s t session msg es _ h) [
    | inl (e, _, _) ↦ rw e c
    | inr (id, room, _, there, g) ↦
        let a = (resolve_player_id env.to_string s.sessions session).1 in
        elim (Bool-cases (request_dismiss room a).1) [
          | inr off ↦ let e : s.manager ≡ t.manager = ground arith in rw (← e) c
          | inl on ↦
              settled-IsConsistent _ id room (request_dismiss room a).0 _ there
                (request_dismiss-ids room a) (rw (on) at g)
        ]
  ]

  pub handle_vote_dismiss-IsConsistent :
      handle_vote_dismiss env s session msg ≡ some (t, es) → IsConsistent t.manager
  unfolding handle_vote_dismiss vote_counted cancel_dismiss_vote
  handle_vote_dismiss-IsConsistent h = elim (with_room_cases env s t session msg es _ h) [
    | inl (e, _, _) ↦ rw e c
    | inr (id, room, _, there, g) ↦
        let a = (resolve_player_id env.to_string s.sessions session).1 in
        let agree = extract_json_bool_from_data msg.data_json "agree" in
        let voted = (vote_dismiss room a agree).0 in
        elim (Bool-cases (not room.dismiss_vote.active || not (vote_dismiss room a agree).1)) [
          | inl off ↦ let e : s.manager ≡ t.manager = ground arith in rw (← e) c
          | inr on ↦ elim (Bool-cases (not agree || has_rejection voted.dismiss_vote)) [
            | inl no_more ↦
                touched-IsConsistent s.manager t.manager id room (cancel_dismiss_vote voted) there
                  (vote_dismiss-ids room a agree) c (inr (ground arith))
            | inr on_its_way ↦
                let type = if agree then "dismiss_vote_updated" else "dismiss_vote_rejected" in
                let ack = sends session (answer type msg voted (vote_data voted.dismiss_vote)) in
                settled-IsConsistent (resolve_player_id env.to_string s.sessions session).0 id room
                  voted (ack ∷ vote_news "dismiss_vote_updated" voted) there
                  (vote_dismiss-ids room a agree) (ground arith)
          ]
        ]
  ]
