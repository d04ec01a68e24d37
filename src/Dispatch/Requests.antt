-- ===== src/Dispatch/Requests.antt =====
-- What the requests of a game come to: a refusal without effect, or a call of the engine in turn.
use gd_server.Base.{
  List, Option-cases, String, [], arith, find_text, inl, inr, none, put_text-find_text, some, ℕ,
  ◌<◌, ◌↔◌, ◌∷◌, ◌≡◌, ◌⊎◌,
}
use gd_server.Cards.{ErrorCode, playing}
use gd_server.Dispatch.Data.{Effect, Message, Server, put_room, send_error}
use gd_server.Dispatch.Play.{validate_turn}
use gd_server.Room.Data.{Room}
use gd_server.State.{player}

-- The request is answered by one error, and every room is as it was.
pub record IsRefused (s t : Server) (session : ℕ) (msg : Message) (es : List Effect) : Type 0 where
  pub code : ErrorCode
  pub told : es ≡ send_error session msg code ∷ []
  pub kept : t.manager ≡ s.manager

-- A request that comes in the turn of the player: the game is on, the turn is not another one than
-- the client has seen, and the seat in turn is the player's.
pub record IsInTurn (room : Room) (player_id : ℕ) (msg : Message) : Type 0 where
  pub in_play : room.engine.state.phase ≡ playing
  pub current : (msg.turn_id ≡ 0) ⊎ (msg.turn_id ≡ room.engine.state.turn_id)
  pub seat : ℕ
  pub turn : room.engine.state.current_player_index ≡ some seat
  pub inside : seat < room.engine.state.player_count
  pub own : (player room.engine.state seat).id ≡ player_id

-- A request is in turn exactly when `validateTurn` finds nothing against it.
pub validate_turn_iff :
    (room : Room) (player_id : ℕ) (msg : Message)
    → (validate_turn room player_id msg ≡ none) ↔ IsInTurn room player_id msg
unfolding validate_turn
validate_turn_iff room player_id msg = (
  λ h. elim (Option-cases room.engine.state.current_player_index) [
    | inl off ↦ absurd (ground arith)
    | inr (seat, e) ↦ record {
      in_play = ground arith;
      current = ground arith;
      seat = seat;
      turn = e;
      inside = ground arith;
      own = ground arith;
    }
  ],
  λ v. ground (arith, v.in_play, v.current, v.turn, v.inside, v.own),
)

-- An error and a room that is put back as it was.
pub put_back :
    (s t : Server) (session : ℕ) (msg : Message) (es : List Effect) (id : String) (room : Room)
    (code : ErrorCode)
    → find_text s.manager.rooms id ≡ some room
    → (es ≡ send_error session msg code ∷ []) × (t.manager ≡ (put_room s id room).manager)
    → IsRefused s t session msg es
put_back s t session msg es id room code there (told, back) = record {
  code = code;
  told = told;
  kept = rw (put_text-find_text s.manager.rooms id room there) at back;
}
