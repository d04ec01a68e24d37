-- ===== src/Dispatch/Safe/Games.antt =====
-- The handlers of a game keep the record of who is in which room.

use gd_server.Base.{Bool-cases, List, Option-cases, arith, inl, inr, refl, some, ℕ, ◌≡◌}
use gd_server.Cards.{code_is_ok}
use gd_server.Dispatch.After.{by_room-IsConsistent}
use gd_server.Dispatch.Data.{Effect, Env, Message, Server}
use gd_server.Dispatch.Play.{
  card_asked, go_on, handle_pass, handle_play_cards, handle_start_game, handle_submit_return,
  handle_submit_tribute, pass_in_room, passed, play_in_room, played, return_in_room,
  tribute_in_room,
}
use gd_server.Dispatch.Stay.{begun-ids, go_on-ids}
use gd_server.Engine.Play.{pass, play_cards}
use gd_server.Engine.TributePhase.{finalize_tribute_phase, submit_return, submit_tribute}
use gd_server.Room.Registry.Members.{IsConsistent}
use gd_server.Room.Rounds.{start_game_of}
use gd_server.Room.Rounds.Opening.{start_game_of-Same}

module _ (env : Env) (s t : Server) (session : ℕ) (msg : Message) (es : List Effect)
    (c : IsConsistent s.manager) where
  pub handle_start_game-IsConsistent :
      handle_start_game env s session msg ≡ some (t, es) → IsConsistent t.manager
  unfolding handle_start_game
  handle_start_game-IsConsistent h =
      by_room-IsConsistent env s t session msg es _
        (λ sessions a id room g. elim (Option-cases (start_game_of env.shuffle room)) [
          | inl off ↦ (room, refl, inl (ground arith))
          | inr (b, e) ↦
              (b.0, begun-ids room _ b (start_game_of-Same env.shuffle room) e, ground arith)
        ])
        h c

  pub handle_submit_tribute-IsConsistent :
      handle_submit_tribute env s session msg ≡ some (t, es) → IsConsistent t.manager
  unfolding handle_submit_tribute tribute_in_room
  handle_submit_tribute-IsConsistent h =
      by_room-IsConsistent env s t session msg es _
        (λ sessions a id room g.
          elim (Option-cases (submit_tribute room.engine a (card_asked msg))) [
            | inl off ↦ (room, refl, inl (ground arith))
            | inr (p, e) ↦ (record room { engine = p.0 }, refl, ground arith)
          ])
        h c

  pub handle_submit_return-IsConsistent :
      handle_submit_return env s session msg ≡ some (t, es) → IsConsistent t.manager
  unfolding handle_submit_return return_in_room
  handle_submit_return-IsConsistent h =
      by_room-IsConsistent env s t session msg es _
        (λ sessions a id room g.
          elim (Option-cases (submit_return room.engine a (card_asked msg))) [
            | inl off ↦ (room, refl, inl (ground arith))
            | inr (p, e) ↦ elim (Bool-cases p.1.tribute_round_complete) [
              | inr more ↦ (record room { engine = p.0 }, refl, ground arith)
              | inl whole ↦ elim (Option-cases (finalize_tribute_phase p.0)) [
                | inl off ↦ (record room { engine = p.0 }, refl, ground arith)
                | inr (f, e') ↦ elim (Bool-cases (code_is_ok p.1.code)) [
                  | inl good ↦ (record room { engine = f.0 }, refl, ground arith)
                  | inr bad ↦ (record room { engine = p.0 }, refl, ground arith)
                ]
              ]
            ]
          ])
        h c

  pub handle_play_cards-IsConsistent :
      handle_play_cards env s session msg ≡ some (t, es) → IsConsistent t.manager
  unfolding handle_play_cards play_in_room played
  handle_play_cards-IsConsistent h =
      by_room-IsConsistent env s t session msg es _
        (λ sessions a id room g. elim (Option-cases (play_cards room.engine a msg.cards)) [
          | inl off ↦ (room, refl, inl (ground arith))
          | inr (p, e) ↦
              let next = record room { engine = p.0 } in
              elim (Option-cases (go_on env next p.1)) [
                | inl off ↦ (next, refl, ground arith)
                | inr (w, hw) ↦ elim (Bool-cases (code_is_ok p.1.code)) [
                  | inl good ↦ (w.0, go_on-ids env next p.1 w hw, ground arith)
                  | inr bad ↦ (next, refl, ground arith)
                ]
              ]
        ])
        h c

  pub handle_pass-IsConsistent :
      handle_pass env s session msg ≡ some (t, es) → IsConsistent t.manager
  unfolding handle_pass pass_in_room passed
  handle_pass-IsConsistent h =
      by_room-IsConsistent env s t session msg es _
        (λ sessions a id room g. elim (Option-cases (pass room.engine a)) [
          | inl off ↦ (room, refl, inl (ground arith))
          | inr (p, e) ↦ (record room { engine = p.0 }, refl, ground arith)
        ])
        h c
