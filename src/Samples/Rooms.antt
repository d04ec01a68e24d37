-- ===== src/Samples/Rooms.antt =====
-- Rooms, votes, views and packets to run the code on.

use gd_server.Auth.Tokens.{TokenManager, issue_token, k_token_ttl_days, validate_token}
use gd_server.Auth.Tokens.Issued.{issue_token_total}
use gd_server.Base.{
  All, Bool, List, Option, String, [], arith, count, false, get_or, if◌then◌else◌, length, ltb,
  none, refl, some, suc, true, zero, ℕ, ◌*◌, ◌++◌, ◌+◌, ◌<◌, ◌↔◌, ◌∷◌, ◌≡◌, ◌≢◌, ◌≤◌, ◌⊎◌,
}
use gd_server.Cards.{
  Card, RoomConfig, create_full_deck, from_mode_name, k_player_count, playing, to_game_rule_config,
}
use gd_server.Cards.Deck.{deal}
use gd_server.Engine.Bot.{choose_bot_play}
use gd_server.Engine.Bot.Cheapest.{IsCheapest, choose_bot_play-IsCheapest}
use gd_server.Engine.Start.{deal_and_start_playing, start_game}
use gd_server.Engine.Table.{
  all_ready, begin_playing_from_deal, clear_tribute_state, init, seat_of, set_player_ready,
}
use gd_server.Engine.View.{anchor_of, build_view_for}
use gd_server.Engine.View.Hidden.{KeepsHand, OtherHands, view_hides_hands}
use gd_server.Network.Sessions.{
  Session, SessionManager, bind_player, ensure_session, find_by_player_id,
  find_session_id_by_player_id, get_session, no_sessions, player_of, remove_session,
  resolve_player_id,
}
use gd_server.Network.Sessions.Bound.{
  SessionReach, binds, goes_to, player_stays_bound, removes_session, starts_with,
}
use gd_server.Network.Sessions.Resolved.{IsFresh, resolve_player_id_total}
use gd_server.Room.Data.{
  PlayerJoinInfo, Room, contains_player, in_play, is_full, is_seat_taken, k_bot_id_base, new_room,
}
use gd_server.Room.Life.{RoomReach, after, fills, here, joins, prepares}
use gd_server.Room.Life.Kept.{reached_room_seats}
use gd_server.Room.Registry.{RoomManager, create_room, new_manager, opened_room, set_room_executor}
use gd_server.Room.Rounds.{clear_spectate_targets, room_all_ready, start_game_of}
use gd_server.Room.Rounds.Seated.{IsAtTable, start_game_of_seats}
use gd_server.Room.Seats.{add_bot_at_seat, fill_bots, first_empty_seat, join, joiner, ready}
use gd_server.Room.Seats.Filled.{IsFilled, fill_bots-IsFilled}
use gd_server.Room.Seats.Joined.{FreeSeat, MayJoin, join_iff}
use gd_server.Room.Seats.Taken.{IsSeated, ids_of_room}
use gd_server.Room.Vote.{DismissVoteEntry, all_agreed, no_vote, start}
use gd_server.Room.Vote.Decision.{at_start, cast_all, said, vote_agreed_iff}
use gd_server.Samples.{engine, first_cards, first_hand, ranked, seated, table}
use gd_server.State.{PlayerState, empty_player, get_card_by_id, get_player_by_id, player}
use gd_server.Tribute.Data.{cards_from_ids}
use gd_server.Voice.Packet.{PacketHeader, read_header, write_header}
use gd_server.Voice.Packet.Trip.{IsHeader, read_header-write_header}

abbrev nobody : PlayerJoinInfo
nobody = record { nickname = "Li"; avatar = ""; avatar_preset = "" }

abbrev solo_config : RoomConfig
solo_config = from_mode_name "solo"

abbrev room_name : String
room_name = "100001"

abbrev empty_room : Room
empty_room = new_room room_name 7 solo_config

abbrev room_of_one : Room
room_of_one = (join empty_room 7 nobody).0

one_joined : RoomReach empty_room room_of_one
one_joined = after here (joins 7 nobody (omega arith))

abbrev owner_id : ℕ
owner_id = 7

abbrev guest : ℕ
guest = 8

room_of_one-IsSeated : IsSeated room_of_one.players room_of_one.config.max_players
unfolding from_mode_name
room_of_one-IsSeated = (reached_room_seats room_name 7 solo_config room_of_one one_joined).0

no_bots : (a : ℕ) → k_bot_id_base < a → count a (ids_of_room room_of_one.players) ≡ 0
unfolding join first_empty_seat is_full contains_player is_seat_taken ids_of_room from_mode_name
no_bots a h = ground arith

abbrev full_room : Room
full_room = (ready (fill_bots room_of_one) 7).0

full_reached : RoomReach empty_room full_room
full_reached = after (after one_joined (fills no_bots)) (prepares 7)

full_room-IsSeated : IsSeated full_room.players full_room.config.max_players
unfolding from_mode_name
full_room-IsSeated = (reached_room_seats room_name 7 solo_config full_room full_reached).0

abbrev as_it_comes : List Card → List Card
as_it_comes cards = cards

begun : (t : Room) × (start_game_of as_it_comes full_room ≡ some (t, true))
unfolding start_game_of room_all_ready to_game_rule_config init set_player_ready get_player_by_id
    clear_spectate_targets start_game all_ready deal_and_start_playing create_full_deck deal
    begin_playing_from_deal clear_tribute_state join first_empty_seat is_full contains_player
    is_seat_taken from_mode_name ready fill_bots add_bot_at_seat
begun = (_, refl)

abbrev begun_room : Room
begun_room = begun.0

six_seats : full_room.config.max_players ≤ k_player_count
unfolding join first_empty_seat is_full contains_player is_seat_taken from_mode_name ready fill_bots
    add_bot_at_seat
six_seats = omega arith

abbrev voter : ℕ → DismissVoteEntry
voter id = record { player_id = id; nickname = ""; voted = false; agree = false }

abbrev two_voters : List DismissVoteEntry
two_voters = voter 7 ∷ voter 8 ∷ []

abbrev one_yes : List (ℕ × Bool)
one_yes = (8, true) ∷ []

-- The same table, with other cards on seat 1.
abbrev other_players : List PlayerState
other_players = seated 0 first_hand ∷ seated 1 (6 ∷ 9 ∷ []) ∷ seated 2 (6 ∷ []) ∷ ranked 3 1 ∷ []

other_hands : OtherHands table other_players
other_hands = record { faces = faces; sizes = sizes }
  where
    faces :
        (i : ℕ)
        → record (get_or other_players i empty_player) { hand = [] }
          ≡ record (player table i) { hand = [] }
    faces zero = refl
    faces (suc zero) = refl
    faces (suc (suc zero)) = refl
    faces (suc (suc (suc zero))) = refl
    faces (suc (suc (suc (suc i)))) = refl

    sizes :
        (i : ℕ) → length (get_or other_players i empty_player).hand ≡ length (player table i).hand
    sizes zero = refl
    sizes (suc zero) = refl
    sizes (suc (suc zero)) = refl
    sizes (suc (suc (suc zero))) = refl
    sizes (suc (suc (suc (suc i)))) = refl

own_seat : KeepsHand table other_players (seat_of table 11)
unfolding seat_of
own_seat = refl

own_view : KeepsHand table other_players (anchor_of table (seat_of table 11) none)
unfolding seat_of anchor_of
own_view = refl

abbrev no_choice : Option ℕ
no_choice = none

abbrev audio_header : PacketHeader
audio_header = record {
  magic = 0x4744564f;
  type = 3;
  user_id = 305419896;
  sequence = 70000;
  timestamp = 1700000000123;
  payload_len = 2;
}

abbrev blank_header : PacketHeader
blank_header = record {
  magic = 0;
  type = 0;
  user_id = 0;
  sequence = 0;
  timestamp = 0;
  payload_len = 0;
}

audio_header-IsHeader : IsHeader audio_header
audio_header-IsHeader = record {
  marked = refl;
  user = omega arith;
  number = omega arith;
  time = omega arith;
  payload = omega arith;
}

abbrev payload : List ℕ
payload = 17 ∷ 34 ∷ []

abbrev draws : List String
draws = room_name ∷ []

abbrev running : RoomManager
running = set_room_executor new_manager true

opened : (m : RoomManager) × (create_room draws running 7 nobody "four" ≡ some (m, some room_name))
unfolding create_room opened_room set_room_executor join first_empty_seat is_full contains_player
    is_seat_taken from_mode_name
opened = (_, refl)

abbrev two_sessions : SessionManager
two_sessions = ensure_session (ensure_session no_sessions 5) 6

abbrev nick : String
nick = "Li"

fifth : (s : Session) × (get_session two_sessions 5 ≡ some s)
unfolding ensure_session get_session
fifth = (_, refl)

abbrev fifth_session : Session
fifth_session = fifth.0

abbrev five : ℕ
five = 5

abbrev some_player : ℕ
some_player = 10007

abbrev busy_sessions : SessionManager
busy_sessions =
    (bind_player (remove_session (bind_player two_sessions five some_player nick).0 6) 9 0 nick).0

busy :
    SessionReach
      (player_of five some_player)
      five
      (bind_player two_sessions five some_player nick).0
      busy_sessions
busy =
    goes_to (goes_to starts_with (removes_session 6 (omega arith)))
      (binds 9 0 nick (omega arith) (omega arith))

abbrev as_text : ℕ → String
as_text n = "7"

abbrev no_tokens : TokenManager
no_tokens = ("old", record { user_id = 10007; expires_at = 100 }) ∷ []

abbrev new_token : String
new_token = "new"

abbrev noon : ℕ
noon = 50

abbrev next_day : ℕ
next_day = 74

vote_agreed_iff_example :
    (all_agreed (cast_all (start no_vote owner_id two_voters).0 one_yes) ≡ true) ↔ (
      (0 < length two_voters)
      × All
          (λ (v : DismissVoteEntry). said (at_start owner_id) one_yes v.player_id ≡ some true)
          two_voters)
vote_agreed_iff_example =
    vote_agreed_iff owner_id two_voters one_yes ((refl, refl), ((refl, refl), tt))
      (λ a. ground arith)

fill_bots-IsFilled_example : IsFilled room_of_one (fill_bots room_of_one)
fill_bots-IsFilled_example = fill_bots-IsFilled room_of_one room_of_one-IsSeated no_bots

join_iff_example :
    (MayJoin room_of_one guest
      × ((s : ℕ) × FreeSeat room_of_one s
          × (join room_of_one guest nobody ≡ (
            record room_of_one {
              players = room_of_one.players ++ joiner room_of_one guest nobody s ∷ [];
            },
            true,
          ))))
    ⊎ (¬ MayJoin room_of_one guest × (join room_of_one guest nobody ≡ (room_of_one, false)))
join_iff_example = join_iff room_of_one guest nobody room_of_one-IsSeated

reached_room_seats_example :
    IsSeated full_room.players full_room.config.max_players
    × (length full_room.players ≤ full_room.config.max_players)
reached_room_seats_example =
    reached_room_seats room_name owner_id solo_config full_room full_reached

start_game_of_seats_example :
    (room_all_ready full_room ≡ true)
    × (begun_room.phase ≡ in_play)
    × (begun_room.engine.state.phase ≡ playing)
    × (begun_room.spectate_targets ≡ [])
    × (begun_room.players ≡ full_room.players)
    × All (IsAtTable begun_room.engine) full_room.players
start_game_of_seats_example =
    start_game_of_seats as_it_comes full_room begun_room full_room-IsSeated six_seats (begun.1)

view_hides_hands_example :
    build_view_for
      (record engine { state = record (engine.state) { players = other_players } })
      11
      no_choice
    ≡ build_view_for engine 11 no_choice
view_hides_hands_example =
    view_hides_hands engine other_players 11 no_choice other_hands own_seat own_view

choose_bot_play-IsCheapest_example :
    (choice : Option (List ℕ)) × (choose_bot_play engine 11 ≡ some choice)
    × IsCheapest engine 11 0 choice
unfolding seat_of cards_from_ids get_card_by_id
choose_bot_play-IsCheapest_example =
    choose_bot_play-IsCheapest engine 11 0 first_cards refl refl refl refl refl (omega arith)

read_header-write_header_example :
    read_header (write_header audio_header ++ payload) 30 blank_header ≡ (audio_header, true)
read_header-write_header_example =
    read_header-write_header audio_header blank_header payload 30 audio_header-IsHeader
      (omega arith)

player_stays_bound_example :
    (find_session_id_by_player_id busy_sessions (player_of five some_player) ≡ five)
    × ((t : Session) × (find_by_player_id busy_sessions (player_of five some_player) ≡ some t)
        × (get_session busy_sessions five ≡ some t)
        × (t.player_id ≡ player_of five some_player))
player_stays_bound_example =
    player_stays_bound two_sessions busy_sessions five some_player nick fifth_session (fifth.1) busy

resolve_player_id_total_example :
    ((s : Session) × (get_session two_sessions five ≡ some s)
      × (s.player_id ≢ 0)
      × (resolve_player_id as_text two_sessions five ≡ (two_sessions, s.player_id)))
    ⊎ IsFresh two_sessions five (resolve_player_id as_text two_sessions five)
resolve_player_id_total_example = resolve_player_id_total as_text two_sessions five

issue_token_total_example :
    ((validate_token (issue_token no_tokens new_token noon some_player).0 next_day new_token).1
      ≡ (if ltb (noon + 24 * k_token_ttl_days) next_day then none else some some_player))
    × ((t : String)
        → new_token ≢ t
        → (validate_token (issue_token no_tokens new_token noon some_player).0 next_day t).1
          ≢ some some_player)
    × ((t : String) (other : ℕ)
        → new_token ≢ t
        → other ≢ some_player
        → (validate_token no_tokens next_day t).1 ≡ some other
        → (validate_token (issue_token no_tokens new_token noon some_player).0 next_day t).1
          ≡ some other)
issue_token_total_example = issue_token_total no_tokens new_token noon some_player next_day refl
