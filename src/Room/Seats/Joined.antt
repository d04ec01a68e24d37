-- ===== src/Room/Seats/Joined.antt =====
-- Who may join a room.

use gd_server.Base.{
  Bool-cases, [], arith, count, false, inl, inr, length, refl, true, ℕ, ◌++◌, ◌<◌, ◌∷◌, ◌≡◌, ◌⊎◌,
}
use gd_server.Room.Data.{
  PlayerJoinInfo, Room, contains_player, is_bot_player, is_full, is_seat_taken, k_bot_id_base,
}
use gd_server.Room.Seats.{join, joiner}
use gd_server.Room.Seats.Filled.{is_full_iff}
use gd_server.Room.Seats.Taken.{IsSeated, contains_player_iff, first_empty_seat-found, ids_of_room}

-- A seat that is free, as `join` finds one.
abbrev pub FreeSeat : Room → ℕ → Type 0
FreeSeat r s = (s < r.config.max_players) × (is_seat_taken r s 0 ≡ false)

-- No bot, a free place, and not in the room already.
pub record MayJoin (r : Room) (id : ℕ) : Type 0 where
  pub human : id < k_bot_id_base
  pub place : length r.players < r.config.max_players
  pub new : count id (ids_of_room r.players) ≡ 0

-- In a room of seated players a join succeeds exactly for a player who is no bot and not there yet,
-- while the room has a place: the player gets a free seat and nobody else changes.
pub join_iff :
    (r : Room) (id : ℕ) (info : PlayerJoinInfo)
    → IsSeated r.players r.config.max_players
    → (MayJoin r id
        × ((s : ℕ) × FreeSeat r s
            × (join r id info
                ≡ (record r { players = r.players ++ joiner r id info s ∷ [] }, true))))
      ⊎ (¬ MayJoin r id × (join r id info ≡ (r, false)))
unfolding join
join_iff r id info v = elim (Bool-cases (is_bot_player id)) [
  | inl bot ↦ inr ((λ m. absurd (ground (arith, m.human))), rw bot refl)
  | inr human ↦ elim (Bool-cases (is_full r)) [
    | inl full ↦ inr ((λ m. absurd (ground (arith, is_full_iff r, m.place))), rw (human, full) refl)
    | inr free ↦ elim (Bool-cases (contains_player r id)) [
      | inl old ↦ inr (
        (λ m. absurd (ground (arith, contains_player_iff r id, m.new))),
        rw (human, free, old) refl,
      )
      | inr new ↦
          let may : MayJoin r id = record {
            human = ground arith;
            place = ground (arith, is_full_iff r);
            new = ground (arith, contains_player_iff r id);
          } in
          let (s, e, l, at_s) = first_empty_seat-found r v may.place in
          inl (may, (s, (l, at_s), rw (human, free, new, e) refl))
    ]
  ]
]
