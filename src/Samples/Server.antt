-- ===== src/Samples/Server.antt =====
-- A server with players, rooms and messages to run the code on.
use text.Mathlib.Text.{◌==◌ as str_eq}
use Prim.Native.String.{◌∷◌ as cons, ◌++◌ as append, len}
use gd_server.Analyzer.{analyze}
use gd_server.Analyzer.Groups.{group_by_rank, normal, total_wild}
use gd_server.Analyzer.Kinds.{analyze_bomb, analyze_pair, analyze_single}
use gd_server.Auth.Service.{auth_failed, let_in, logged_in, login_account, register_account}
use gd_server.Auth.Service.Login.{register_account_total}
use gd_server.Auth.Service.Refusals.{IsTurnedAway}
use gd_server.Auth.Tokens.{k_token_ttl_days}
use gd_server.Auth.Users.{
  AuthService, UserRecord, find_by_id, find_by_nickname, first_named, first_with_id, new_user,
  no_users, register_user, registered, trim, user_of_token,
}
use gd_server.Auth.Users.Unique.{IsUnique, NameRefused, register_user_total}
use gd_server.Base.{
  List, Option, String, [], arith, count, false, find_text, if◌then◌else◌, length, ltb, map, none,
  refl, remove_all, some, true, ℕ, ◌*◌, ◌++◌, ◌+◌, ◌∷◌, ◌≡◌, ◌≢◌, ◌≤◌, ◌⊎◌,
}
use gd_server.Cards.{
  from_mode_name, is_level_card, is_wild_card, ok, pattern_rank_for_level_card,
  single_effective_rank,
}
use gd_server.Dispatch.Bots.{execute_bot_tribute_actions, execute_bot_turn}
use gd_server.Dispatch.Data.{Effect, Env, Message, Server, broadcast_to_room, room_of, with_room}
use gd_server.Dispatch.Dismiss.{handle_vote_dismiss}
use gd_server.Dispatch.Dissolved.{AfterVote, handle_vote_dismiss_total}
use gd_server.Dispatch.Lobby.{handle_create_room}
use gd_server.Dispatch.Play.{go_on, handle_play_cards, validate_turn}
use gd_server.Dispatch.Queue.{IsFor, IsQueued, post_room_message_total}
use gd_server.Dispatch.Quoted.{all_readable, read_string, read_string-json_escape}
use gd_server.Dispatch.Requests.{IsInTurn, IsRefused}
use gd_server.Dispatch.Rounds.{
  broadcast_player_played, cancel_tribute_timer, schedule_tribute_timer, schedule_turn_timer,
  send_player_view, send_spectate_updates_to_finished_players,
}
use gd_server.Dispatch.Route.{dispatch, kind_of, should_run_on_room_queue}
use gd_server.Dispatch.Safe.Whole.{ServerReach, boots, receives, served_player_room, serves}
use gd_server.Dispatch.Stuck.{IsStuck, stuck_stays}
use gd_server.Dispatch.Turns.{GoesOn, handle_play_cards_total}
use gd_server.Dispatch.Wire.{
  extract_json_bool_from_data, extract_json_string_from_data, json_escape,
}
use gd_server.Engine.Play.{
  assign_finish_rank, judge_play, pass, play_cards, put_down, skip_finished,
}
use gd_server.Engine.Play.Legal.{IsLegal}
use gd_server.Engine.Table.{GameEngine, PlayResult, seat_of}
use gd_server.Engine.TributePhase.{submit_return, submit_tribute}
use gd_server.Engine.View.{anchor_of, build_view_for}
use gd_server.Network.Sessions.{
  bind_player, blank_session, ensure_session, get_session, no_sessions, resolve_player_id,
}
use gd_server.Room.Data.{
  Room, contains_player, empty_room_player, in_play, is_full, is_seat_taken, new_room,
}
use gd_server.Room.Registry.{create_room, get_room, new_manager, opened_room, set_room_executor}
use gd_server.Room.Rounds.{vote_dismiss}
use gd_server.Room.Seats.{first_empty_seat, join}
use gd_server.Room.Spectators.{resolve_view_anchor}
use gd_server.Room.TaskQueue.{no_tasks, post}
use gd_server.Room.TaskQueue.Serial.{
  Threads, Turns, in_hand, no_turn, posts_one, tasks_one_by_one, turned,
}
use gd_server.Room.Vote.{all_agreed, has_rejection, record_vote}
use gd_server.Rules.{CardPattern, can_beat}
use gd_server.Samples.{engine, nines, return_engine}
use gd_server.State.{contains, get_card_by_id, remove}
use gd_server.Tribute.Data.{cards_from_ids}
use gd_server.Turns.{advance_turn, next_active_player}
use gd_server.Voice.Rooms.{
  VoiceRoomManager, VoiceSocketAddr, join_voice_room, members_of, no_voices, peers_except,
  room_id_for_user,
}
use gd_server.Voice.Rooms.Kept.{VoiceReach, silence, speaks_up, voiced}
use gd_server.Voice.Rooms.Peers.{addr_of, reached_peers}

abbrev plain_env : Env
plain_env = record {
  to_string = λ n. "9";
  shuffle = λ cards. cards;
  room_ids = "100001" ∷ [];
  steady_ms = 5000;
  steady_hours = 4;
  server_time_ms = 7;
  access_token = λ room identity name. "token";
}

abbrev plain_auth : AuthService
plain_auth = record { tokens = []; store = no_users }

abbrev first_server : Server
first_server = record {
  manager = set_room_executor new_manager true;
  sessions = no_sessions;
  auth = plain_auth;
  limiter = [];
  live_kit_enabled = false;
}

abbrev blank_message : Message
blank_message = record {
  type = "ping";
  protocol_version = 1;
  request_id = 1;
  room_id = "";
  turn_id = 0;
  state_version = 0;
  error_code = ok;
  data_json = "{}";
  cards = [];
  token = "";
}

abbrev create_message : Message
create_message = record blank_message { type = "create_room"; data_json = "{\"mode\":\"four\"}" }

abbrev my_session : ℕ
my_session = 1

abbrev my_id : ℕ
my_id = 10001

abbrev new_room_id : String
new_room_id = "100001"

created :
    (s : Server) × (es : List Effect) × (dispatch plain_env first_server my_session
        (some create_message)
      ≡ some (s, es))
unfolding dispatch should_run_on_room_queue kind_of handle_create_room create_room set_room_executor
    get_room
created = (_, _, refl)

abbrev room_server : Server
room_server = created.0

room_server-reached : ServerReach room_server
room_server-reached =
    serves (boots plain_auth false)
      (receives plain_env my_session (some create_message) room_server created.1 created.2)

created_room :
    (r : Room) × (find_text room_server.manager.rooms new_room_id ≡ some r)
    × (contains_player r my_id ≡ true)
unfolding contains_player created opened_room from_mode_name extract_json_string_from_data join
    resolve_player_id get_session ensure_session bind_player is_full first_empty_seat is_seat_taken
created_room = (_, refl, refl)

abbrev the_room : Room
the_room = created_room.0

-- The player of seat 0 of the sample table on a session, in a room with that table.
abbrev table_room : Room
table_room = record (new_room "table" 11 (from_mode_name "four")) {
  phase = in_play;
  engine = engine;
  players =
      record empty_room_player { id = 11; seat_index = some 0 }
      ∷ record empty_room_player { id = 12; seat_index = some 1 }
      ∷ [];
}

abbrev server_with : Room → Server
server_with room = record first_server {
  manager = record {
    rooms = (room.room_id, room) ∷ [];
    player_rooms = (11, room.room_id) ∷ (12, room.room_id) ∷ [];
    has_executor = true;
  };
  sessions = record no_sessions {
    sessions = (1, record (blank_session 1) { player_id = 11; authenticated = true }) ∷ [];
  };
}

abbrev table_server : Server
table_server = server_with table_room

abbrev play_message : Message
play_message = record blank_message { type = "play_cards"; cards = nines }

play_run :
    (s : Server) × (es : List Effect) × (handle_play_cards plain_env table_server my_session
        play_message
      ≡ some (s, es))
unfolding handle_play_cards with_room room_of resolve_player_id ensure_session get_session
    validate_turn broadcast_player_played send_spectate_updates_to_finished_players send_player_view
    build_view_for resolve_view_anchor anchor_of go_on schedule_turn_timer broadcast_to_room
    play_cards put_down remove assign_finish_rank skip_finished advance_turn next_active_player
    judge_play contains seat_of cards_from_ids get_card_by_id can_beat analyze analyze_bomb
    analyze_pair analyze_single group_by_rank total_wild normal is_wild_card is_level_card
    pattern_rank_for_level_card single_effective_rank
play_run = (_, _, refl)

abbrev after_play_server : Server
after_play_server = play_run.0

abbrev play_effects : List Effect
play_effects = play_run.1

abbrev vote_room : Room
vote_room = record table_room {
  dismiss_vote = record {
    active = true;
    requester_id = 12;
    entries =
        record { player_id = 12; nickname = ""; voted = true; agree = true }
        ∷ record { player_id = 11; nickname = ""; voted = false; agree = false }
        ∷ [];
  };
}

abbrev vote_server : Server
vote_server = server_with vote_room

abbrev vote_message : Message
vote_message = record blank_message { type = "vote_dismiss"; data_json = "{\"agree\":true}" }

abbrev table_id : String
table_id = "table"

vote_run :
    (s : Server) × (es : List Effect) × (handle_vote_dismiss plain_env vote_server my_session
        vote_message
      ≡ some (s, es))
unfolding handle_vote_dismiss with_room room_of resolve_player_id ensure_session get_session
    extract_json_bool_from_data vote_dismiss record_vote has_rejection all_agreed
vote_run = (_, _, refl)

abbrev after_vote_server : Server
after_vote_server = vote_run.0

abbrev vote_effects : List Effect
vote_effects = vote_run.1

abbrev eleven : ℕ
eleven = 11

-- All returns are in, and the phase is still the one of the returns.
abbrev late_room : Room
late_room = record table_room {
  engine = record return_engine {
    tribute_state = record (return_engine.tribute_state) {
      active = true;
      pending_return_seats = [];
    };
  };
}

late_room-IsStuck : IsStuck late_room.engine
late_room-IsStuck = record { in_returns = refl; going = refl; none_owed = refl }

abbrev quoted_text : String
quoted_text = "say \"hi\"\n"

abbrev text_behind : String
text_behind = ",\"a\":1}"

abbrev port_one : VoiceSocketAddr
port_one = record { address = 2130706433; port = 4001 }

abbrev port_two : VoiceSocketAddr
port_two = record { address = 2130706433; port = 4002 }

abbrev two_voices : VoiceRoomManager
two_voices =
    join_voice_room (join_voice_room no_voices 1 21 "100001" port_one) 2 22 "100001" port_two

two_voices-reached : VoiceReach two_voices
two_voices-reached =
    voiced (voiced silence (speaks_up 1 21 "100001" port_one)) (speaks_up 2 22 "100001" port_two)

abbrev first_voice : ℕ
first_voice = 21

abbrev nick_asked : String
nick_asked = " Lin "

no_users-IsUnique : IsUnique no_users
unfolding first_with_id
no_users-IsUnique = record { below = λ id u h. absurd (cc h); named = λ id u h. absurd (cc h) }

abbrev busy_threads : Threads ℕ
busy_threads = record {
  queue = (post no_tasks 5).0;
  drains = 1;
  workers = [];
  posted = 5 ∷ [];
  finished = [];
}

busy_threads-turned : Turns busy_threads
unfolding post
busy_threads-turned = turned no_turn (posts_one 5)

served_player_room_example :
    (room_of room_server.manager my_id ≡ some (new_room_id, the_room))
    × ((other : String) (q : Room)
        → find_text room_server.manager.rooms other ≡ some q
        → contains_player q my_id ≡ true
        → other ≡ new_room_id)
served_player_room_example =
    served_player_room room_server new_room_id the_room my_id room_server-reached (created_room.1)
      (created_room.2) (omega arith)

handle_play_cards_total_example :
    let a = (resolve_player_id plain_env.to_string table_server.sessions my_session).1 in
    IsRefused table_server after_play_server my_session play_message play_effects
    ⊎ ((id : String) × (room : Room) × (room_of table_server.manager a ≡ some (id, room))
        × IsInTurn room a play_message
        × ((seat : ℕ) × (p : CardPattern) × IsLegal room.engine a play_message.cards seat p)
        × GoesOn plain_env table_server after_play_server id room
            (play_cards room.engine a play_message.cards))
handle_play_cards_total_example =
    handle_play_cards_total plain_env table_server after_play_server my_session play_message
      play_effects (play_run.2)

handle_vote_dismiss_total_example :
    let a = (resolve_player_id plain_env.to_string vote_server.sessions my_session).1 in
    let agree = extract_json_bool_from_data vote_message.data_json "agree" in
    IsRefused vote_server after_vote_server my_session vote_message vote_effects
    ⊎ ((vote_room.dismiss_vote.active ≡ true)
        × ((vote_dismiss vote_room a agree).1 ≡ true)
        × AfterVote table_id (vote_dismiss vote_room a agree).0 agree after_vote_server.manager)
unfolding room_of resolve_player_id ensure_session get_session
handle_vote_dismiss_total_example =
    handle_vote_dismiss_total plain_env vote_server after_vote_server my_session vote_message
      vote_effects table_id vote_room (vote_run.2) refl refl

post_room_message_total_example :
    let resolved = resolve_player_id plain_env.to_string table_server.sessions my_session in
    (room : Option Room) × IsFor table_server.manager resolved.1 play_message room
    × IsQueued plain_env table_server my_session play_message room
unfolding should_run_on_room_queue
post_room_message_total_example =
    post_room_message_total plain_env table_server my_session play_message refl

stuck_stays_example :
    (execute_bot_tribute_actions late_room
      ≡ some (late_room, cancel_tribute_timer late_room ∷ schedule_tribute_timer late_room))
    × (execute_bot_turn plain_env late_room eleven ≡ some (late_room, []))
    × ((card : ℕ) (cards : List ℕ) (e : GameEngine) (r : PlayResult)
        → (submit_return late_room.engine eleven card ≡ some (e, r))
          ⊎ (submit_tribute late_room.engine eleven card ≡ some (e, r))
          ⊎ (play_cards late_room.engine eleven cards ≡ some (e, r))
          ⊎ (pass late_room.engine eleven ≡ some (e, r))
        → (e ≡ late_room.engine) × (r.code ≢ ok))
stuck_stays_example = stuck_stays plain_env late_room eleven late_room-IsStuck

read_string-json_escape_example :
    read_string false (append (json_escape quoted_text) (cons "\"" text_behind))
    ≡ (if all_readable quoted_text then some (quoted_text, text_behind) else none)
read_string-json_escape_example = read_string-json_escape quoted_text text_behind

reached_peers_example :
    let others = remove_all (members_of two_voices.room_members new_room_id) first_voice in
    (peers_except two_voices first_voice new_room_id ≡ map (addr_of two_voices.clients) others)
    × ((u : ℕ)
        → u ≢ first_voice
        → room_id_for_user two_voices u ≡ some new_room_id
        → count u others ≡ 1)
    × ((u : ℕ)
        → (u ≡ first_voice) ⊎ (room_id_for_user two_voices u ≢ some new_room_id)
        → count u others ≡ 0)
reached_peers_example = reached_peers two_voices first_voice new_room_id two_voices-reached

tasks_one_by_one_example :
    (length (in_hand busy_threads.workers) ≤ 1)
    × (busy_threads.posted
        ≡ busy_threads.finished ++ in_hand busy_threads.workers ++ busy_threads.queue.tasks)
    × (busy_threads.queue.tasks ≢ [] → busy_threads.drains + length busy_threads.workers ≡ 1)
tasks_one_by_one_example = tasks_one_by_one busy_threads busy_threads-turned

register_user_total_example :
    let out = register_user no_users nick_asked nick_asked nick_asked nick_asked in
    IsUnique out.0
    × ((NameRefused no_users nick_asked out.1 × (out.0 ≡ no_users))
        ⊎ ((out.1 ≡ registered)
            × (2 ≤ len (trim nick_asked))
            × (len (trim nick_asked) ≤ 16)
            × (first_named no_users.users (trim nick_asked) ≡ none)
            × (find_by_nickname out.0 nick_asked
                ≡ some
                    (new_user no_users.next_id (trim nick_asked) nick_asked nick_asked nick_asked))
            × (find_by_id out.0 no_users.next_id
                ≡ some
                    (new_user no_users.next_id (trim nick_asked) nick_asked nick_asked nick_asked))
            × ((id : ℕ) (u : UserRecord)
                → find_by_id no_users id ≡ some u
                → find_by_id out.0 id ≡ some u)))
register_user_total_example =
    register_user_total no_users nick_asked nick_asked nick_asked nick_asked no_users-IsUnique

abbrev salted : String → String → String
salted password salt = append salt password

register_account_total_example :
    let out = register_account salted plain_auth 4 "5a17" "token" nick_asked "secret7" in
    let hash = salted "secret7" "5a17" in
    let user = new_user plain_auth.store.next_id (trim nick_asked) "secret7" hash "5a17" in
    IsUnique out.0.store
    × (IsTurnedAway plain_auth nick_asked "secret7" out
        ⊎ ((6 ≤ len "secret7")
            × (len "secret7" ≤ 64)
            × (out.1 ≡ logged_in user "token")
            × ((later : ℕ)
                → (user_of_token out.0 later "token").1
                  ≡ (if ltb (4 + 24 * k_token_ttl_days) later then none else some user))
            × ((later : ℕ) (next given : String)
                → login_account salted out.0 later next nick_asked given ≡ (
                    if str_eq (salted given "5a17") hash
                    then let_in out.0 later next user
                    else (out.0, auth_failed 401 "invalid_credentials")))
            × ((id : ℕ) (u : UserRecord)
                → find_by_id plain_auth.store id ≡ some u
                → find_by_id out.0.store id ≡ some u)))
register_account_total_example =
    register_account_total salted plain_auth 4 "5a17" "token" nick_asked "secret7" no_users-IsUnique
      refl
