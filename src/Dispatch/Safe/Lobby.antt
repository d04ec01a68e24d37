-- ===== src/Dispatch/Safe/Lobby.antt =====
-- The handlers of requests about a room keep the record of who is in which room.

use gd_server.Base.{
  >>=-eq-some, List, Option-cases, arith, inl, inr, refl, some, ℕ, ◌>>=◌, ◌∙◌, ◌≡◌,
}
use gd_server.Dispatch.After.{by_room-IsConsistent}
use gd_server.Dispatch.Data.{Effect, Env, Message, Server}
use gd_server.Dispatch.Ids.{change_seat-ids, ready-ids, set_enable_tribute-ids, unready-ids}
use gd_server.Dispatch.Lobby.{
  handle_change_seat, handle_ready, handle_set_room_options, handle_unready, int_field,
}
use gd_server.Dispatch.Rounds.{try_start_next_round}
use gd_server.Dispatch.Stay.{try_start_next_round-ids}
use gd_server.Dispatch.Wire.{extract_json_bool_from_data}
use gd_server.Room.Registry.Members.{IsConsistent}
use gd_server.Room.Rounds.{set_enable_tribute}
use gd_server.Room.Seats.{change_seat, ready, unready}

module _ (env : Env) (s t : Server) (session : ℕ) (msg : Message) (es : List Effect)
    (c : IsConsistent s.manager) where
  pub handle_ready-IsConsistent :
      handle_ready env s session msg ≡ some (t, es) → IsConsistent t.manager
  unfolding handle_ready
  handle_ready-IsConsistent h =
      by_room-IsConsistent env s t session msg es _
        (λ sessions a id room g.
          let (o, ho, back) = >>=-eq-some (try_start_next_round env (ready room a).0 >>= _) _ g in
          let (w, hw, same) = >>=-eq-some (try_start_next_round env (ready room a).0) _ ho in
          (
            w.0,
            try_start_next_round-ids env (ready room a).0 w hw ∙ ready-ids room a,
            inr (ground arith),
          ))
        h c

  pub handle_unready-IsConsistent :
      handle_unready env s session msg ≡ some (t, es) → IsConsistent t.manager
  unfolding handle_unready
  handle_unready-IsConsistent h =
      by_room-IsConsistent env s t session msg es _
        (λ sessions a id room g. ((unready room a).0, unready-ids room a, ground arith)) h c

  pub handle_change_seat-IsConsistent :
      handle_change_seat env s session msg ≡ some (t, es) → IsConsistent t.manager
  unfolding handle_change_seat
  handle_change_seat-IsConsistent h =
      by_room-IsConsistent env s t session msg es _
        (λ sessions a id room g. elim (Option-cases (int_field msg "seat_index")) [
          | inl off ↦ (room, refl, inl (ground arith))
          | inr (seat, e) ↦
              ((change_seat room a (some seat)).0, change_seat-ids room a seat, ground arith)
        ])
        h c

  pub handle_set_room_options-IsConsistent :
      handle_set_room_options env s session msg ≡ some (t, es) → IsConsistent t.manager
  unfolding handle_set_room_options
  handle_set_room_options-IsConsistent h =
      by_room-IsConsistent env s t session msg es _
        (λ sessions a id room g.
          let b = extract_json_bool_from_data msg.data_json "enable_tribute" in
          ((set_enable_tribute room a b).0, set_enable_tribute-ids room a b, ground arith))
        h c
