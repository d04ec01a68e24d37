-- ===== src/Dispatch/Dissolved.antt =====
-- What a vote to dismiss a room comes to.

use gd_server.Base.{
  Bool, Bool-cases, List, String, [], any, ap, arith, erase_at, false, find_at, find_at-erase_at_ne,
  find_at-erase_at_self, find_text, find_text-erase_text_self, find_text-put_text_self,
  if◌then◌else◌, inl, inr, none, not, some, subst, sym, true, ℕ, ℕ_discrete, ◌&&◌, ◌<◌, ◌==◌, ◌||◌,
  ◌∙◌, ◌∷◌, ◌≡◌, ◌⊎◌,
}
use gd_server.Cards.{invalid_state}
use gd_server.Dispatch.Data.{Effect, Env, Message, Server, put_room, room_of, with_room}
use gd_server.Dispatch.Dismiss.{dissolve_room, handle_vote_dismiss, settle_vote, vote_counted}
use gd_server.Dispatch.Requests.{IsRefused}
use gd_server.Dispatch.Wire.{extract_json_bool_from_data}
use gd_server.Network.Sessions.{resolve_player_id}
use gd_server.Room.Data.{Room, RoomPlayer, contains_player, is_bot_player, k_bot_id_base}
use gd_server.Room.Registry.{RoomManager, erase_humans, remove_room}
use gd_server.Room.Rounds.{cancel_dismiss_vote, vote_dismiss}
use gd_server.Room.Vote.{all_agreed, has_rejection}

erase_humans-none :
    (ps : List RoomPlayer) (rooms : List (ℕ × String)) (b : ℕ)
    → find_at rooms b ≡ none
    → find_at (erase_humans ps rooms) b ≡ none
unfolding erase_humans
erase_humans-none [] rooms b h = h
erase_humans-none (p ∷ ps) rooms b h = elim (Bool-cases (is_bot_player p.id)) [
  | inl bot ↦ rw bot (erase_humans-none ps rooms b h)
  | inr human ↦ rw human (erase_humans-none ps (erase_at rooms p.id) b (erased p.id))
]
  where
    erased : (a : ℕ) → find_at (erase_at rooms a) b ≡ none
    erased a = elim (ℕ_discrete a b) [
      | yes same ↦ rw same (find_at-erase_at_self rooms b)
      | no other ↦ find_at-erase_at_ne rooms a b other ∙ h
    ]

erase_humans_self :
    (ps : List RoomPlayer) (rooms : List (ℕ × String)) (b : ℕ)
    → b < k_bot_id_base
    → any (λ p. p.id == b) ps ≡ true
    → find_at (erase_humans ps rooms) b ≡ none
unfolding erase_humans
erase_humans_self [] rooms b human h = absurd (cc h)
erase_humans_self (p ∷ ps) rooms b human h = elim (ℕ_discrete p.id b) [
  | yes same ↦
      let e : is_bot_player p.id ≡ false = ground arith in
      rw e (erase_humans-none ps (erase_at rooms p.id) b (rw same (find_at-erase_at_self rooms b)))
  | no other ↦
      erase_humans_self ps (if is_bot_player p.id then rooms else erase_at rooms p.id) b human
        (ground arith)
]

-- The room is gone, and its human players are free for another one.
pub record IsDissolved (id : String) (room : Room) (m : RoomManager) : Type 0 where
  pub gone : find_text m.rooms id ≡ none
  pub free :
      (b : ℕ) → b < k_bot_id_base → contains_player room b ≡ true → find_at m.player_rooms b ≡ none

remove_room-IsDissolved :
    (m : RoomManager) (id : String) (room : Room)
    → find_text m.rooms id ≡ some room
    → IsDissolved id room (remove_room m id)
unfolding remove_room contains_player
remove_room-IsDissolved m id room there =
    rw (remove_room, there)
      record {
        gone = find_text-erase_text_self m.rooms id;
        free = λ b human h. erase_humans_self room.players m.player_rooms b human h;
      }

-- What becomes of the room after a vote that counts: without a rejection and with all votes in
-- favour it is dissolved, with a rejection the vote is over, and else the room waits for more votes.
abbrev pub AfterVote : String → Room → Bool → RoomManager → Type 0
AfterVote id voted agree m =
    ((not agree || has_rejection voted.dismiss_vote) ≡ true
      → find_text m.rooms id ≡ some (cancel_dismiss_vote voted))
    × ((not agree || has_rejection voted.dismiss_vote) ≡ false
        → all_agreed voted.dismiss_vote ≡ true
        → IsDissolved id voted m)
    × ((not agree || has_rejection voted.dismiss_vote) ≡ false
        → all_agreed voted.dismiss_vote ≡ false
        → find_text m.rooms id ≡ some voted)

vote_counted-AfterVote :
    (s t : Server) (session : ℕ) (msg : Message) (id : String) (voted : Room) (agree : Bool)
    (es : List Effect)
    → voted.room_id ≡ id
    → vote_counted s session msg id voted agree ≡ some (t, es)
    → AfterVote id voted agree t.manager
unfolding vote_counted settle_vote dissolve_room
vote_counted-AfterVote s t session msg id voted agree es named h =
    let put = λ (r : Room). find_text-put_text_self s.manager.rooms id r in
    (
      λ off.
          let e : (put_room s id (cancel_dismiss_vote voted)).manager ≡ t.manager = ground arith in
          rw (← e) (put (cancel_dismiss_vote voted)),
      λ on yes_all.
          let m = (put_room s id voted).manager in
          let e : remove_room m voted.room_id ≡ t.manager = ground arith in
          subst (λ n. IsDissolved id voted n) (sym (ap (remove_room m) named) ∙ e)
            (remove_room-IsDissolved m id voted (put voted)),
      λ on open_vote.
          let e : (put_room s id voted).manager ≡ t.manager = ground arith in rw (← e) (put voted),
    )

vote_dismiss-id : (r : Room) (a : ℕ) (b : Bool) → (vote_dismiss r a b).0.room_id ≡ r.room_id
unfolding vote_dismiss
vote_dismiss-id r a b = ground arith

-- A vote is refused with one error that leaves all rooms as they are; or a vote was going on and the
-- player had a say in it. Then one rejection ends the vote and keeps the room; with the consent of
-- all the room is dissolved and its human players are free; and else the room stays with the vote
-- counted. The room is known by its id.
pub handle_vote_dismiss_total :
    (env : Env) (s t : Server) (session : ℕ) (msg : Message) (es : List Effect) (id : String)
    (room : Room)
    → handle_vote_dismiss env s session msg ≡ some (t, es)
    → room_of s.manager (resolve_player_id env.to_string s.sessions session).1 ≡ some (id, room)
    → room.room_id ≡ id
    → let a = (resolve_player_id env.to_string s.sessions session).1 in
      let agree = extract_json_bool_from_data msg.data_json "agree" in
      IsRefused s t session msg es
      ⊎ ((room.dismiss_vote.active ≡ true)
          × ((vote_dismiss room a agree).1 ≡ true)
          × AfterVote id (vote_dismiss room a agree).0 agree t.manager)
unfolding handle_vote_dismiss with_room
handle_vote_dismiss_total env s t session msg es id room h at_id named =
    let known = resolve_player_id env.to_string s.sessions session in
    let a = known.1 in
    let agree = extract_json_bool_from_data msg.data_json "agree" in
    let g = rw (handle_vote_dismiss, with_room, at_id) at h in
    elim (Bool-cases (room.dismiss_vote.active && (vote_dismiss room a agree).1)) [
      | inr off ↦ inl (record { code = invalid_state; told = ground arith; kept = ground arith })
      | inl on ↦ inr (
        ground arith,
        ground arith,
        vote_counted-AfterVote (record s { sessions = known.0 }) t session msg id
            (vote_dismiss room a agree).0 agree es (vote_dismiss-id room a agree ∙ named)
            (ground arith),
      )
    ]
