-- ===== src/Room/Life/Kept.antt =====
-- Every call on a room keeps the seating.

use gd_server.Base.{
  Bool, Bool-cases, List, Option, String, [], any, ap, arith, false, if◌then◌else◌, inl, inr, leb,
  length, none, not, refl, some, subst, suc, true, ℕ, ◌&&◌, ◌==◌, ◌||◌, ◌∷◌, ◌≡◌, ◌≢◌, ◌≤◌,
}
use gd_server.Cards.{RoomConfig}
use gd_server.Engine.Table.{set_player_ready}
use gd_server.Room.Data.{
  PlayerJoinInfo, Room, RoomPlayer, contains_player, in_waiting, is_bot_player, is_seat_taken,
  new_room, room_phase_eq,
}
use gd_server.Room.Life.{
  RoomInv, RoomReach, RoomStep, after, asks, drops, ends, fills, goes_on, here, hesitates, joins,
  leaves, moves, plays, prepares, renames, sets, settles, starts, votes, watches,
}
use gd_server.Room.Rounds.{
  cancel_dismiss_vote, enter_settlement, finish_match, only_bots_ready, request_dismiss,
  set_enable_tribute, start_game_of, start_next_round_of, vote_dismiss,
}
use gd_server.Room.Rounds.Opening.{SameRoom, start_game_of-Same, start_next_round_of-Same}
use gd_server.Room.Seats.{
  change_first, change_seat, find_player, join, joiner, leave, may_prepare, ready,
  sync_player_profile, unready, with_profile,
}
use gd_server.Room.Seats.Filled.{fill_bots-IsFilled}
use gd_server.Room.Seats.Joined.{join_iff}
use gd_server.Room.Seats.Kept.{
  append-IsSeated, change_first-IsSeated, keep-IsSeated, moved-IsSeated,
}
use gd_server.Room.Seats.Taken.{
  IsSeated, free-count, ids_of_room, length-le-seats, seat_then, seats_of,
}
use gd_server.Room.Spectators.{set_spectate_target}

-- A room with the same players and settings.
same-RoomInv :
    (r t : Room) → (t.players ≡ r.players) × (t.config ≡ r.config) → RoomInv r → RoomInv t
same-RoomInv r t (e, f) v = rw (e, f) v

pub new_room-RoomInv :
    (id : String) (owner : ℕ) (config : RoomConfig) → RoomInv (new_room id owner config)
unfolding ids_of_room seats_of
new_room-RoomInv id owner config = record {
  ids_once = λ a. omega arith;
  no_zero = refl;
  seats_once = λ k. omega arith;
  inside = λ k h. refl;
  seated = refl;
}

leave-RoomInv : (r : Room) (id : ℕ) → RoomInv r → RoomInv (leave r id)
unfolding leave
leave-RoomInv r id v = elim (Bool-cases (is_bot_player id)) [
  | inl bot ↦ rw bot v
  | inr human ↦ rw human (keep-IsSeated id r.config.max_players r.players v)
]

-- An operation that refuses, or else goes on.
if-RoomInv :
    (c : Bool) (x y : Room × Bool)
    → RoomInv x.0
    → (c ≡ false → RoomInv y.0)
    → RoomInv (if c then x else y).0
if-RoomInv true x y v w = v
if-RoomInv false x y v w = w refl

ready-RoomInv : (r : Room) (id : ℕ) → RoomInv r → RoomInv (ready r id).0
unfolding ready
ready-RoomInv r id v =
    if-RoomInv (not (may_prepare r)) _ _ v (λ _. found (find_player r.players id))
  where
    found :
        (o : Option RoomPlayer)
        → RoomInv
            (elim o as (λ _. Room × Bool) [
              | none ↦ (r, false)
              | some p ↦ (
                record r {
                  players =
                      change_first (λ q. q.id == id) (λ q. record q { is_ready = true }) r.players;
                  engine = if p.is_bot then r.engine else set_player_ready r.engine id true;
                },
                true,
              )
            ]).0
    found none = v
    found (some p) =
        change_first-IsSeated (λ q. q.id == id) (λ q. record q { is_ready = true }) (λ q. refl)
          (λ q. refl) r.players r.config.max_players v

unready-RoomInv : (r : Room) (id : ℕ) → RoomInv r → RoomInv (unready r id).0
unfolding unready
unready-RoomInv r id v =
    if-RoomInv (not (may_prepare r) || is_bot_player id || not (contains_player r id)) _ _ v λ _.
      change_first-IsSeated (λ q. q.id == id) (λ q. record q { is_ready = false }) (λ q. refl)
        (λ q. refl) r.players r.config.max_players v

sync-RoomInv :
    (r : Room) (id : ℕ) (info : PlayerJoinInfo)
    → RoomInv r
    → RoomInv (sync_player_profile r id info).0
unfolding sync_player_profile
sync-RoomInv r id info v =
    let wanted = λ (p : RoomPlayer). p.id == id && not p.is_bot in
    if-RoomInv (is_bot_player id || not (any wanted r.players)) _ _ v λ _.
      change_first-IsSeated wanted (with_profile info) (λ q. refl) (λ q. refl) r.players
        r.config.max_players v

change_seat-RoomInv :
    (r : Room) (id : ℕ) (seat : Option ℕ) → RoomInv r → RoomInv (change_seat r id seat).0
unfolding change_seat is_seat_taken
change_seat-RoomInv r id none v = v
change_seat-RoomInv r id (some k) v =
    if-RoomInv
      (not (room_phase_eq r.phase in_waiting)
        || is_bot_player id
        || leb r.config.max_players k
        || is_seat_taken r k id
        || not (contains_player r id))
      _ _ v
      λ good. moved-IsSeated k id r.config.max_players r.players v (ground arith) (ground arith)

only_bots-Same :
    (ps : List RoomPlayer)
    → (ids_of_room (only_bots_ready ps) ≡ ids_of_room ps)
      × (seats_of (only_bots_ready ps) ≡ seats_of ps)
      × (length (only_bots_ready ps) ≡ length ps)
unfolding only_bots_ready ids_of_room seats_of
only_bots-Same [] = (refl, refl, refl)
only_bots-Same (p ∷ ps) =
    let (e, f, g) = only_bots-Same ps in
    (ap (λ xs. p.id ∷ xs) e, ap (seat_then p.seat_index) f, ap suc g)

settle-RoomInv : (r : Room) → RoomInv r → RoomInv (enter_settlement r)
unfolding enter_settlement
settle-RoomInv r v =
    let (e, f, g) = only_bots-Same r.players in
    record {
      ids_once = λ a. rw e (v.ids_once a);
      no_zero = rw e v.no_zero;
      seats_once = λ k. rw f (v.seats_once k);
      inside = λ k h. rw f (v.inside k h);
      seated = rw (f, g) v.seated;
    }

join-RoomInv :
    (r : Room) (id : ℕ) (info : PlayerJoinInfo) → id ≢ 0 → RoomInv r → RoomInv (join r id info).0
join-RoomInv r id info nz v = elim (join_iff r id info v) [
  | inl (may, (s, (l, free), e)) ↦ rw e (
      append-IsSeated r.players r.config.max_players s (joiner r id info s) v refl l
        (free-count r s v.no_zero free) nz may.new)
  | inr (_, e) ↦ rw e v
]

start-RoomInv :
    (r t : Room) (b : Bool) (o : Option (Room × Bool))
    → SameRoom r o
    → o ≡ some (t, b)
    → RoomInv r
    → RoomInv t
start-RoomInv r t b none same h v = absurd (cc h)
start-RoomInv r t b (some (u, c)) (e, f) h v =
    let g : u ≡ t = cc h in subst (λ (z : Room). RoomInv z) g (rw (e, f) v)

request-Same :
    (r : Room) (id : ℕ) (agree : Bool)
    → RoomInv r
    → RoomInv (request_dismiss r id).0 × RoomInv (vote_dismiss r id agree).0
unfolding request_dismiss vote_dismiss
request-Same r id agree v = (if-RoomInv _ _ _ v (λ _. v), if-RoomInv _ _ _ v (λ _. v))

set_enable_tribute-RoomInv :
    (r : Room) (id : ℕ) (enabled : Bool) → RoomInv r → RoomInv (set_enable_tribute r id enabled).0
unfolding set_enable_tribute
set_enable_tribute-RoomInv r id enabled v = if-RoomInv _ _ _ v (λ _. v)

watch-RoomInv : (r : Room) (id seat : ℕ) → RoomInv r → RoomInv (set_spectate_target r id seat).0
unfolding set_spectate_target
watch-RoomInv r id seat v = if-RoomInv _ _ _ v (λ _. v)

RoomStep-RoomInv : {r t : Room} → RoomStep r t → RoomInv r → RoomInv t
unfolding cancel_dismiss_vote finish_match
RoomStep-RoomInv (joins id info nz) v = join-RoomInv _ id info nz v
RoomStep-RoomInv (leaves id) v = leave-RoomInv _ id v
RoomStep-RoomInv (renames id info) v = sync-RoomInv _ id info v
RoomStep-RoomInv (prepares id) v = ready-RoomInv _ id v
RoomStep-RoomInv (hesitates id) v = unready-RoomInv _ id v
RoomStep-RoomInv (moves id seat) v = change_seat-RoomInv _ id seat v
RoomStep-RoomInv (fills fresh) v = let f = fill_bots-IsFilled _ v fresh in f.seated
RoomStep-RoomInv (asks id) v = (request-Same _ id true v).0
RoomStep-RoomInv (votes id agree) v = (request-Same _ id agree v).1
RoomStep-RoomInv drops v = v
RoomStep-RoomInv (sets id enabled) v = set_enable_tribute-RoomInv _ id enabled v
RoomStep-RoomInv (watches id seat) v = watch-RoomInv _ id seat v
RoomStep-RoomInv settles v = settle-RoomInv _ v
RoomStep-RoomInv {r = r} (starts shuffle t b h) v =
    start-RoomInv r t b (start_game_of shuffle r) (start_game_of-Same shuffle r) h v
RoomStep-RoomInv {r = r} (goes_on shuffle t b h) v =
    start-RoomInv r t b (start_next_round_of shuffle r) (start_next_round_of-Same shuffle r) h v
RoomStep-RoomInv ends v = v
RoomStep-RoomInv (plays e) v = v

Reach-RoomInv : {r t : Room} → RoomReach r t → RoomInv r → RoomInv t
Reach-RoomInv here v = v
Reach-RoomInv (after before step) v = RoomStep-RoomInv step (Reach-RoomInv before v)

-- Whatever is called on a new room, in any order, its players have ids of their own and seats of
-- their own inside the room, and are no more than its seats. Players who join have an id that is
-- not 0, and bots are filled in only while the room has none.
pub reached_room_seats :
    (id : String) (owner : ℕ) (config : RoomConfig) (t : Room)
    → RoomReach (new_room id owner config) t
    → IsSeated t.players t.config.max_players × (length t.players ≤ t.config.max_players)
reached_room_seats id owner config t reach =
    let v = Reach-RoomInv reach (new_room-RoomInv id owner config) in
    (v, length-le-seats t.players t.config.max_players v)
