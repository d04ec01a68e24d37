-- ===== src/Dispatch/Ids.antt =====
-- The calls on a room that neither let anybody in nor out: the ids of the players stay.

use gd_server.Base.{
  Bool, List, [], ap, arith, false, not, refl, some, true, ℕ, ◌&&◌, ◌==◌, ◌∷◌, ◌≡◌,
}
use gd_server.Room.Data.{PlayerJoinInfo, Room, RoomPlayer, contains_player}
use gd_server.Room.Rounds.{
  enter_settlement, only_bots_ready, request_dismiss, set_enable_tribute, vote_dismiss,
}
use gd_server.Room.Seats.{change_seat, moved_to, ready, sync_player_profile, unready, with_profile}
use gd_server.Room.Seats.Kept.{change_first-ids}
use gd_server.Room.Seats.Taken.{contains_player_iff, ids_of_room}
use gd_server.Room.Spectators.{set_spectate_target}

pub ready-ids : (r : Room) (id : ℕ) → ids_of_room (ready r id).0.players ≡ ids_of_room r.players
unfolding ready
ready-ids r id = ground (
  arith,
  change_first-ids (λ q. q.id == id) (λ q. record q { is_ready = true }) (λ q. refl) r.players,
)

pub unready-ids : (r : Room) (id : ℕ) → ids_of_room (unready r id).0.players ≡ ids_of_room r.players
unfolding unready
unready-ids r id = ground (
  arith,
  change_first-ids (λ q. q.id == id) (λ q. record q { is_ready = false }) (λ q. refl) r.players,
)

pub change_seat-ids :
    (r : Room) (id seat : ℕ)
    → ids_of_room (change_seat r id (some seat)).0.players ≡ ids_of_room r.players
unfolding change_seat
change_seat-ids r id seat =
    ground (arith, change_first-ids (λ q. q.id == id) (moved_to seat) (λ q. refl) r.players)

pub sync_player_profile-ids :
    (r : Room) (id : ℕ) (info : PlayerJoinInfo)
    → ids_of_room (sync_player_profile r id info).0.players ≡ ids_of_room r.players
unfolding sync_player_profile
sync_player_profile-ids r id info = ground (
  arith,
  change_first-ids (λ q. q.id == id && not q.is_bot) (with_profile info) (λ q. refl) r.players,
)

pub set_enable_tribute-ids :
    (r : Room) (id : ℕ) (b : Bool)
    → ids_of_room (set_enable_tribute r id b).0.players ≡ ids_of_room r.players
unfolding set_enable_tribute
set_enable_tribute-ids r id b = ground arith

pub set_spectate_target-ids :
    (r : Room) (id seat : ℕ)
    → ids_of_room (set_spectate_target r id seat).0.players ≡ ids_of_room r.players
unfolding set_spectate_target
set_spectate_target-ids r id seat = ground arith

pub request_dismiss-ids :
    (r : Room) (id : ℕ) → ids_of_room (request_dismiss r id).0.players ≡ ids_of_room r.players
unfolding request_dismiss
request_dismiss-ids r id = ground arith

pub vote_dismiss-ids :
    (r : Room) (id : ℕ) (b : Bool)
    → ids_of_room (vote_dismiss r id b).0.players ≡ ids_of_room r.players
unfolding vote_dismiss
vote_dismiss-ids r id b = ground arith

only_bots_ready-ids : (ps : List RoomPlayer) → ids_of_room (only_bots_ready ps) ≡ ids_of_room ps
unfolding only_bots_ready ids_of_room
only_bots_ready-ids [] = refl
only_bots_ready-ids (p ∷ ps) = ap (◌∷◌ p.id) (only_bots_ready-ids ps)

pub enter_settlement-ids :
    (r : Room) → ids_of_room (enter_settlement r).players ≡ ids_of_room r.players
unfolding enter_settlement
enter_settlement-ids r = only_bots_ready-ids r.players

-- Nobody is in a room who was not in it before.
pub ids-contains :
    (r t : Room) (a : ℕ)
    → ids_of_room t.players ≡ ids_of_room r.players
    → contains_player t a ≡ true
    → contains_player r a ≡ true
ids-contains r t a e h = (contains_player_iff r a).1 (rw (← e) ((contains_player_iff t a).0 h))
