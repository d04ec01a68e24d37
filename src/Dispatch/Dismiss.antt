-- ===== src/Dispatch/Dismiss.antt =====
-- message_dispatcher.cpp: the vote to dismiss a room.

use gd_server.Base.{Bool, List, String, [], if◌then◌else◌, not, some, ℕ, ◌++◌, ◌||◌, ◌∷◌}
use gd_server.Cards.{invalid_state}
use gd_server.Dispatch.Data.{
  Effect, Env, Message, Out, Server, answer, broadcast_to_room, news, no_data, put_room, refuse,
  sends, vote_data, with_room,
}
use gd_server.Dispatch.Rounds.{cancel_turn_timer}
use gd_server.Dispatch.Wire.{extract_json_bool_from_data}
use gd_server.Engine.Play.Turn.{counted}
use gd_server.Room.Data.{Room}
use gd_server.Room.Registry.{remove_room}
use gd_server.Room.Rounds.{cancel_dismiss_vote, request_dismiss, vote_dismiss}
use gd_server.Room.Vote.{all_agreed, has_rejection}

abbrev pub vote_news : String → Room → List Effect
vote_news type room = broadcast_to_room room (news type room (vote_data room.dismiss_vote))

-- The room goes out of the manager by its id.
unfoldable pub dissolve_room : Server → Room → Server × List Effect
dissolve_room s room = (
  record s { manager = remove_room s.manager room.room_id },
  cancel_turn_timer room ∷ broadcast_to_room room (news "room_dismissed" room no_data),
)

-- The room goes if all have agreed.
unfoldable pub settle_vote : Server → Room → List Effect → Out
unfolding dissolve_room
settle_vote s room told =
    let (gone, farewell) = dissolve_room s room in
    if all_agreed room.dismiss_vote then some (gone, told ++ farewell) else some (s, told)

unfoldable pub handle_request_dismiss : Env → Server → ℕ → Message → Out
unfolding settle_vote
handle_request_dismiss env s session msg = with_room env s session msg λ known player_id id room.
    let (asked, started) = request_dismiss room player_id in
    let ack = answer "dismiss_vote_started" msg asked (vote_data asked.dismiss_vote) in
    if not started
    then refuse known session msg invalid_state
    else settle_vote (put_room known id asked) asked
        (vote_news "dismiss_vote_started" asked ++ sends session ack ∷ [])

-- What a vote that counts brings about.
unfoldable pub vote_counted : Server → ℕ → Message → String → Room → Bool → Out
unfolding settle_vote
vote_counted s session msg id voted agree =
    let type = if agree then "dismiss_vote_updated" else "dismiss_vote_rejected" in
    let ack = sends session (answer type msg voted (vote_data voted.dismiss_vote)) in
    if not agree || has_rejection voted.dismiss_vote
    then some
        (put_room s id (cancel_dismiss_vote voted), ack ∷ vote_news "dismiss_vote_rejected" voted)
    else settle_vote (put_room s id voted) voted (ack ∷ vote_news "dismiss_vote_updated" voted)

unfoldable pub handle_vote_dismiss : Env → Server → ℕ → Message → Out
unfolding vote_counted
handle_vote_dismiss env s session msg = with_room env s session msg λ known player_id id room.
    let agree = extract_json_bool_from_data msg.data_json "agree" in
    let (voted, counted) = vote_dismiss room player_id agree in
    if not room.dismiss_vote.active
    then refuse known session msg invalid_state
    else if not counted
    then refuse known session msg invalid_state
    else vote_counted known session msg id voted agree
