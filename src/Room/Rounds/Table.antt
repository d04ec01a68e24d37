-- ===== src/Room/Rounds/Table.antt =====
-- The engine's table with the ids on their seats.

use gd_server.Base.{
  Bool, List, Option, String, [], ap, arith, get_or, get_or-set_ne, get_or-set_part,
  get_or-set_self, length, length-set, none, refl, set, some, subst, suc, true, zero, ℕ, ◌%◌, ◌+◌,
  ◌<◌, ◌∙◌, ◌∷◌, ◌≡◌, ◌≢◌, ◌≤◌,
}
use gd_server.Cards.{k_player_count}
use gd_server.Engine.Table.{GameEngine, init, seat_players, set_player_ready, set_ready_at}
use gd_server.Room.Data.{RoomPlayer}
use gd_server.Room.Rounds.{all_set_ready}
use gd_server.State.{PlayerState, empty_player, get_player_by_id, initial_state, player}

seat_players-before :
    (ids : List ℕ) (i x : ℕ) (ps : List PlayerState)
    → x < i
    → get_or (seat_players ids i ps) x empty_player ≡ get_or ps x empty_player
unfolding seat_players
seat_players-before [] i x ps h = refl
seat_players-before (id ∷ ids) i x ps h =
    let apart : i ≢ x = omega arith in
    seat_players-before ids (i + 1) x _ (omega arith) ∙ get_or-set_ne ps i x _ empty_player apart

seat_players-id :
    (ids : List ℕ) (i j : ℕ) (ps : List PlayerState)
    → i + length ids ≤ length ps
    → j < length ids
    → (get_or (seat_players ids i ps) (i + j) empty_player).id ≡ get_or ids j 0
unfolding seat_players
seat_players-id [] i j ps room h = absurd (omega arith)
seat_players-id (id ∷ ids) i zero ps room h =
    let p : PlayerState = record empty_player { id = id; seat_index = i; team = i % 2 } in
    let e : i + 0 ≡ i = omega arith in
    rw e (
      ap (λ (q : PlayerState). q.id)
        (seat_players-before ids (i + 1) i (set ps i p) (omega arith)
          ∙ get_or-set_self ps i p empty_player (omega arith)))
seat_players-id (id ∷ ids) i (suc j) ps room h =
    let p : PlayerState = record empty_player { id = id; seat_index = i; team = i % 2 } in
    let e : i + suc j ≡ i + 1 + j = omega arith in
    rw e
      (seat_players-id ids (i + 1) j (set ps i p) (omega (arith, length-set ps i p)) (omega arith))

pub init-id :
    (e : GameEngine) (room_id : String) (ids : List ℕ) (j : ℕ)
    → length ids ≤ k_player_count
    → j < length ids
    → (player (init e room_id ids).state j).id ≡ get_or ids j 0
unfolding init
init-id e room_id ids j room h =
    let z : 0 + j ≡ j = omega arith in
    subst
      (λ k. (get_or (seat_players ids 0 initial_state.players) k empty_player).id ≡ get_or ids j 0)
      z (seat_players-id ids 0 j initial_state.players (omega arith) h)

set_player_ready-id :
    (e : GameEngine) (id x : ℕ) (b : Bool)
    → (player (set_player_ready e id b).state x).id ≡ (player e.state x).id
unfolding set_player_ready set_ready_at
set_player_ready-id e id x b = at (get_player_by_id e.state id)
  where
    at : (o : Option ℕ) → (player (set_ready_at e.state o b) x).id ≡ (player e.state x).id
    at none = refl
    at (some i) =
        get_or-set_part (λ (q : PlayerState). q.id) e.state.players i x
          (record (player e.state i) { is_ready = b }) empty_player refl

pub all_set_ready-id :
    (e : GameEngine) (ps : List RoomPlayer) (x : ℕ)
    → (player (all_set_ready e ps).state x).id ≡ (player e.state x).id
unfolding all_set_ready
all_set_ready-id e [] x = refl
all_set_ready-id e (p ∷ ps) x =
    all_set_ready-id (set_player_ready e p.id true) ps x ∙ set_player_ready-id e p.id x true
