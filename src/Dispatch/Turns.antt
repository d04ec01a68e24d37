-- ===== src/Dispatch/Turns.antt =====
-- What a request to play and a request to pass come to.
use gd_server.Base.{
  >>=-eq-some, Bool-cases, List, Option, Option-cases, String, ap, arith, find_text, inl, inr,
  is_empty, none, refl, some, ℕ, ◌≡◌, ◌≢◌, ◌⊎◌,
}
use gd_server.Cards.{code_is_ok, invalid_cards, not_in_room, ok}
use gd_server.Dispatch.After.{with_room_cases}
use gd_server.Dispatch.Data.{Effect, Env, Message, Server, put_room, room_of}
use gd_server.Dispatch.Play.{go_on, handle_play_cards, play_in_room, played, validate_turn}
use gd_server.Dispatch.Requests.{IsInTurn, IsRefused, put_back, validate_turn_iff}
use gd_server.Engine.Play.{
  Verdict, accepted, apply_verdict, judge_pattern, judge_play, judge_seat, play_cards, refused,
}
use gd_server.Engine.Play.Legal.{IsLegal, judge_play_iff}
use gd_server.Engine.Play.Refusals.{play_refused}
use gd_server.Engine.Table.{GameEngine, Outcome, PlayResult, seat_of}
use gd_server.Network.Sessions.{resolve_player_id}
use gd_server.Room.Data.{Room}
use gd_server.Rules.{CardPattern}

-- The room goes on after a call of the engine: the call is an accepted one, and the room is then
-- settled or the next turn is timed.
pub record GoesOn (env : Env) (s t : Server) (id : String) (room : Room) (outcome : Outcome)
    : Type 0 where
  pub engine : GameEngine
  pub result : PlayResult
  pub accepted_call : outcome ≡ some (engine, result)
  pub code_ok : result.code ≡ ok
  pub after_call : Room × List Effect
  pub went_on : go_on env (record room { engine = engine }) result ≡ some after_call
  pub rooms_after : t.manager ≡ (put_room s id after_call.0).manager

-- A play that the engine has looked at.
play_in_room_total :
    (env : Env) (s t : Server) (session : ℕ) (msg : Message) (a : ℕ) (id : String) (room : Room)
    (es : List Effect)
    → find_text s.manager.rooms id ≡ some room
    → play_in_room env s session msg a id room ≡ some (t, es)
    → IsRefused s t session msg es ⊎ GoesOn env s t id room (play_cards room.engine a msg.cards)
unfolding play_in_room played
play_in_room_total env s t session msg a id room es there h =
    let (p, hp, g) = >>=-eq-some (play_cards room.engine a msg.cards) _ h in
    elim (Bool-cases (code_is_ok p.1.code)) [
      | inr bad ↦
          let same : p.0 ≡ room.engine =
            play_refused room.engine p.0 a msg.cards p.1 hp (ground arith) in
          inl (put_back s t session msg es id room p.1.code there (ground arith, ground arith))
      | inl good ↦ elim (Option-cases (go_on env (record room { engine = p.0 }) p.1)) [
        | inl off ↦ absurd (ground arith)
        | inr (o, ho) ↦ inr (record {
          engine = p.0;
          result = p.1;
          accepted_call = hp;
          code_ok = ground arith;
          after_call = o;
          went_on = ho;
          rooms_after = ground arith;
        })
      ]
    ]

judge_play-code :
    (e : GameEngine) (a : ℕ) (cards : List ℕ) → judge_play e a cards ≢ some (refused ok)
unfolding judge_play judge_seat judge_pattern
judge_play-code e a cards h = elim (Option-cases (seat_of e.state a)) [
  | inl off ↦ absurd (ground arith)
  | inr (seat, there) ↦ absurd (ground arith)
]

accepted-IsLegal :
    (e e' : GameEngine) (a : ℕ) (cards : List ℕ) (r : PlayResult)
    → play_cards e a cards ≡ some (e', r)
    → r.code ≡ ok
    → (seat : ℕ) × (p : CardPattern) × IsLegal e a cards seat p
unfolding play_cards apply_verdict
accepted-IsLegal e e' a cards r h good = cases (judge_play e a cards) refl
  where
    cases :
        (v : Option Verdict)
        → judge_play e a cards ≡ v
        → (seat : ℕ) × (p : CardPattern) × IsLegal e a cards seat p
    cases none q = absurd (ground arith)
    cases (some (refused code)) q =
        let k : code ≡ ok = ground arith in absurd (judge_play-code e a cards (rw k at q))
    cases (some (accepted seat p)) q = (seat, p, (judge_play_iff e a cards seat p).0 q)

-- A request to play is refused with one error that leaves all rooms as they are; or it comes from a
-- player in a room, in the turn of the player, with a play that is legal there, and the room then
-- goes on with what the engine makes of it.
pub handle_play_cards_total :
    (env : Env) (s t : Server) (session : ℕ) (msg : Message) (es : List Effect)
    → handle_play_cards env s session msg ≡ some (t, es)
    → let a = (resolve_player_id env.to_string s.sessions session).1 in
      IsRefused s t session msg es
      ⊎ ((id : String) × (room : Room) × (room_of s.manager a ≡ some (id, room))
          × IsInTurn room a msg
          × ((seat : ℕ) × (p : CardPattern) × IsLegal room.engine a msg.cards seat p)
          × GoesOn env s t id room (play_cards room.engine a msg.cards))
unfolding handle_play_cards room_of
handle_play_cards_total env s t session msg es h =
    let a = (resolve_player_id env.to_string s.sessions session).1 in
    elim (with_room_cases env s t session msg es _ h) [
      | inl (e, told, _) ↦
          inl (record { code = not_in_room; told = told; kept = ap (λ x. x.manager) e })
      | inr (id, room, at_id, there, g) ↦ elim (Option-cases (validate_turn room a msg)) [
        | inr (code, e) ↦ inl (record { code = code; told = ground arith; kept = ground arith })
        | inl fine ↦ elim (Bool-cases (is_empty msg.cards)) [
          | inl off ↦
              inl (record { code = invalid_cards; told = ground arith; kept = ground arith })
          | inr some_cards ↦
              let known = (resolve_player_id env.to_string s.sessions session).0 in
              elim (play_in_room_total env (record s { sessions = known }) t session msg a id room
                es there (rw (fine, some_cards) at g)) [
                  | inl r ↦ inl (record { code = r.code; told = r.told; kept = r.kept })
                  | inr o ↦ inr (
                    id,
                    room,
                    rw (at_id, there),
                    (validate_turn_iff room a msg).0 fine,
                    accepted-IsLegal room.engine o.engine a msg.cards o.result o.accepted_call
                        o.code_ok,
                    record {
                      engine = o.engine;
                      result = o.result;
                      accepted_call = o.accepted_call;
                      code_ok = o.code_ok;
                      after_call = o.after_call;
                      went_on = o.went_on;
                      rooms_after = o.rooms_after;
                    },
                  )
                ]
        ]
      ]
    ]
