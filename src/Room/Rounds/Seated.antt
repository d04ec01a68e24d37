-- ===== src/Room/Rounds/Seated.antt =====
-- Where the players of a room sit when the game has begun.

use gd_server.Base.{
  >>=-eq-some, All, Bool-cases, List, Option-cases, [], all, any, ap, arith, count, false, get_or,
  get_or-set_ne, get_or-set_self, if◌then◌else◌, inl, inr, length, length-set, refl, replicate, set,
  some, suc, true, zero, ℕ, ◌+◌, ◌<◌, ◌==◌, ◌∙◌, ◌∷◌, ◌≡◌, ◌≢◌, ◌≤◌,
}
use gd_server.Cards.{Card, k_player_count, ok, playing}
use gd_server.Engine.Start.{start_game}
use gd_server.Engine.Start.Ids.{start_game-id}
use gd_server.Engine.Table.{GameEngine, PlayResult, init}
use gd_server.Room.Data.{Room, RoomPlayer, in_play}
use gd_server.Room.Rounds.{
  all_set_ready, begin_round, clear_spectate_targets, open_game, place_ids, room_all_ready,
  start_game_of,
}
use gd_server.Room.Rounds.Table.{all_set_ready-id, init-id}
use gd_server.Room.Seats.{ready}
use gd_server.Room.Seats.Taken.{IsSeated, seats_of}
use gd_server.State.{player}

-- The player sits, and the table has the player's id there.
abbrev pub HasSeat : List ℕ → RoomPlayer → Type 0
HasSeat ids p = (s : ℕ) × (p.seat_index ≡ some s) × (s < length ids) × (get_or ids s 0 ≡ p.id)

-- A player that has been placed has a seat.
place_ids-step :
    (n : ℕ) (p : RoomPlayer) (ps : List RoomPlayer) (ids out : List ℕ)
    → place_ids n (p ∷ ps) ids ≡ some out
    → (s : ℕ) × (p.seat_index ≡ some s) × (s < n) × (place_ids n ps (set ids s p.id) ≡ some out)
unfolding place_ids
place_ids-step n p ps ids out h = elim (Option-cases p.seat_index) [
  | inl off ↦ let g = rw off at h in absurd (cc g)
  | inr (s, e) ↦ let g = rw e at h in (s, e, ground (arith, g), ground (arith, g))
]

seats-step :
    (p : RoomPlayer) (ps : List RoomPlayer) (s k : ℕ)
    → p.seat_index ≡ some s
    → count k (seats_of (p ∷ ps)) ≡ (if s == k then 1 else 0) + count k (seats_of ps)
unfolding seats_of
seats-step p ps s k e = rw e refl

place_ids-other :
    (n : ℕ) (ps : List RoomPlayer) (ids out : List ℕ) (k : ℕ)
    → place_ids n ps ids ≡ some out
    → count k (seats_of ps) ≡ 0
    → (get_or out k 0 ≡ get_or ids k 0) × (length out ≡ length ids)
unfolding place_ids
place_ids-other n [] ids out k h free = ground arith
place_ids-other n (p ∷ ps) ids out k h free =
    let (s, e, l, g) = place_ids-step n p ps ids out h in
    let apart : s ≢ k = ground (arith, seats-step p ps s k e) in
    let rest =
      place_ids-other n ps (set ids s p.id) out k g (ground (arith, seats-step p ps s k e)) in
    (rest.0 ∙ get_or-set_ne ids s k p.id 0 apart, rest.1 ∙ length-set ids s p.id)

place_ids-HasSeat :
    (n : ℕ) (ps : List RoomPlayer) (ids out : List ℕ)
    → place_ids n ps ids ≡ some out
    → ((k : ℕ) → count k (seats_of ps) ≤ 1)
    → length ids ≡ n
    → All (HasSeat out) ps × (length out ≡ n)
unfolding place_ids
place_ids-HasSeat n [] ids out h once len = (tt, ground arith)
place_ids-HasSeat n (p ∷ ps) ids out h once len =
    let (s, e, l, g) = place_ids-step n p ps ids out h in
    let alone : count s (seats_of ps) ≡ 0 = ground (arith, seats-step p ps s s e, once s) in
    let (same, len') = place_ids-other n ps (set ids s p.id) out s g alone in
    let (all, total) =
      place_ids-HasSeat n ps (set ids s p.id) out g
        (λ k. omega (arith, seats-step p ps s k e, once k)) (length-set ids s p.id ∙ len) in
    (((s, e, omega (arith, total), same ∙ get_or-set_self ids s p.id 0 (omega arith)), all), total)

length-zeros : (n : ℕ) → length (replicate {A = ℕ} n 0) ≡ n
length-zeros zero = refl
length-zeros (suc n) = ap suc (length-zeros n)

-- What a start that succeeds went through.
start_game_of-opened :
    (shuffle : List Card → List Card) (r t : Room)
    → start_game_of shuffle r ≡ some (t, true)
    → (room_all_ready r ≡ true)
      × ((ids : List ℕ) × (place_ids r.config.max_players r.players
              (replicate r.config.max_players 0)
            ≡ some ids)
          × (open_game shuffle r ids ≡ some (t, true)))
unfolding start_game_of
start_game_of-opened shuffle r t h = elim (Bool-cases (room_all_ready r)) [
  | inr early ↦ let g = rw early at h in absurd (cc g)
  | inl ready ↦
      let g = rw ready at h in
      elim (Option-cases
        (place_ids r.config.max_players r.players (replicate r.config.max_players 0))) [
          | inl off ↦ let g' = rw off at g in absurd (cc g')
          | inr (ids, placed) ↦ let g' = rw placed at g in (ready, (ids, placed, g'))
        ]
]

begun-parts :
    (r t : Room) (out : GameEngine × PlayResult)
    → some (begin_round r out) ≡ some (t, true)
    → (out.1.code ≡ ok)
      × (out.0 ≡ t.engine)
      × ((t.phase ≡ in_play) × (t.spectate_targets ≡ []) × (t.players ≡ r.players))
unfolding begin_round clear_spectate_targets
begun-parts r t (e, res) h = ground arith

open_game-began :
    (shuffle : List Card → List Card) (r t : Room) (ids : List ℕ)
    → open_game shuffle r ids ≡ some (t, true)
    → (any (λ id. id == 0) ids ≡ false)
      × ((res : PlayResult) × (start_game shuffle
              (all_set_ready (init r.engine r.room_id ids) r.players)
            ≡ some (t.engine, res))
          × (res.code ≡ ok)
          × (t.phase ≡ in_play)
          × (t.spectate_targets ≡ [])
          × (t.players ≡ r.players))
unfolding open_game
open_game-began shuffle r t ids h = elim (Bool-cases (any (λ id. id == 0) ids)) [
  | inl hole ↦ let g = rw hole at h in absurd (cc g)
  | inr full ↦
      let g = rw full at h in
      let (out, started, began) =
        >>=-eq-some (start_game shuffle (all_set_ready (init r.engine r.room_id ids) r.players))
          (λ out. some (begin_round r out)) g in
      let (good, e, rest) = begun-parts r t out began in
      (full, (out.1, started ∙ ap (λ z. some (z, out.1)) e, good, rest.0, rest.1, rest.2))
]

-- The player's id is on the table, on the player's own seat.
abbrev pub IsAtTable : GameEngine → RoomPlayer → Type 0
IsAtTable e p = (s : ℕ) × (p.seat_index ≡ some s) × ((player e.state s).id ≡ p.id)

All-IsAtTable :
    (e : GameEngine) (ids : List ℕ)
    → ((s : ℕ) → s < length ids → (player e.state s).id ≡ get_or ids s 0)
    → (ps : List RoomPlayer) → All (HasSeat ids) ps
    → All (IsAtTable e) ps
All-IsAtTable e ids h [] a = tt
All-IsAtTable e ids h (p ∷ ps) ((s, at_s, inside, same), rest) =
    ((s, at_s, h s inside ∙ same), All-IsAtTable e ids h ps rest)

-- A game that a room of at most six seated players starts is in play, in the room and in the
-- engine, whatever the phase of the room was before: the room was full and everybody ready, all
-- players sit at the engine's table on the seats they have in the room, and nobody watches a
-- teammate any more.
pub start_game_of_seats :
    (shuffle : List Card → List Card) (r t : Room)
    → IsSeated r.players r.config.max_players
    → r.config.max_players ≤ k_player_count
    → start_game_of shuffle r ≡ some (t, true)
    → (room_all_ready r ≡ true)
      × (t.phase ≡ in_play)
      × (t.engine.state.phase ≡ playing)
      × (t.spectate_targets ≡ [])
      × (t.players ≡ r.players)
      × All (IsAtTable t.engine) r.players
start_game_of_seats shuffle r t v small h =
    let (ready, (ids, placed, opened)) = start_game_of-opened shuffle r t h in
    let (_, (res, started, good, phase, targets, same)) = open_game-began shuffle r t ids opened in
    let (seats, len) =
      place_ids-HasSeat r.config.max_players r.players (replicate r.config.max_players 0) ids placed
        v.seats_once (length-zeros r.config.max_players) in
    let table = all_set_ready (init r.engine r.room_id ids) r.players in
    let at_table : (s : ℕ) → s < length ids → (player t.engine.state s).id ≡ get_or ids s 0 =
      λ s inside.
        (start_game-id shuffle table t.engine res s started good).0
        ∙ all_set_ready-id (init r.engine r.room_id ids) r.players s
        ∙ init-id r.engine r.room_id ids s (omega (arith, len)) inside in
    (
      ready,
      phase,
      (start_game-id shuffle table t.engine res 0 started good).1,
      targets,
      same,
      All-IsAtTable t.engine ids at_table r.players seats,
    )
