-- ===== src/Room/Registry/Humans.antt =====
-- Which players are in a room after a change of it.

use gd_server.Base.{
  Bool-cases, List, Option-cases, String, [], any, arith, false, inl, inr, keep, leb, not, some,
  suc, true, zero, ℕ, ℕ_discrete, ◌++◌, ◌+◌, ◌<◌, ◌==◌, ◌||◌, ◌∷◌, ◌≡◌, ◌≢◌, ◌⊎◌,
}
use gd_server.Cards.{RoomConfig}
use gd_server.Room.Data.{
  PlayerJoinInfo, Room, RoomPlayer, contains_player, is_bot_player, is_full, is_seat_taken,
  k_bot_id_base, new_room,
}
use gd_server.Room.Seats.{
  add_bot_at_seat, bot_at, fill_bots, fill_from, fill_step, first_empty_seat, join, joiner, leave,
}
use gd_server.Room.Seats.Filled.{fill_from_next, fill_from_stop, fill_step_full}
use gd_server.Room.Seats.Kept.{count-ids_append}
use gd_server.Room.Seats.Taken.{contains_player_iff}
use gd_server.State.{player}

-- The rooms after a join.
join-shape :
    (r : Room) (id : ℕ) (info : PlayerJoinInfo)
    → (join r id info ≡ (r, false))
      ⊎ ((s : ℕ) × (join r id info
            ≡ (record r { players = r.players ++ joiner r id info s ∷ [] }, true)))
unfolding join
join-shape r id info = elim (Bool-cases (is_bot_player id || is_full r || contains_player r id)) [
  | inl bad ↦ inl (ground arith)
  | inr good ↦ elim (Option-cases (first_empty_seat r)) [
    | inl full ↦ inl (ground arith)
    | inr (s, free) ↦ inr (s, ground arith)
  ]
]

pub join-contains :
    (r : Room) (id : ℕ) (info : PlayerJoinInfo) (a : ℕ)
    → contains_player (join r id info).0 a ≡ true
    → (a ≡ id) ⊎ (contains_player r a ≡ true)
join-contains r id info a h = elim (join-shape r id info) [
  | inl same ↦ inr (rw same at h)
  | inr (s, e) ↦
      let joined = record r { players = r.players ++ joiner r id info s ∷ [] } in
      let there : contains_player joined a ≡ true = rw e at h in
      elim (ℕ_discrete a id) [
        | yes me ↦ inl me
        | no he ↦ inr (
            ground (
              arith,
              contains_player_iff r a,
              contains_player_iff joined a,
              count-ids_append a r.players (joiner r id info s),
            ))
      ]
]

kept-contains :
    (x a : ℕ) (ps : List RoomPlayer)
    → any (λ p. p.id == a) (keep (λ p. not (p.id == x)) ps) ≡ true
    → (any (λ p. p.id == a) ps ≡ true) × (a ≢ x)
kept-contains x a [] h = absurd (cc h)
kept-contains x a (p ∷ ps) h = elim (ℕ_discrete a x) [
  | yes same ↦ absurd (ground (arith, kept-contains x a ps))
  | no other ↦ (ground (arith, kept-contains x a ps), other)
]

pub leave-contains :
    (r : Room) (id a : ℕ)
    → a < k_bot_id_base
    → contains_player (leave r id) a ≡ true
    → (contains_player r a ≡ true) × (a ≢ id)
unfolding leave contains_player
leave-contains r id a human h = elim (Bool-cases (is_bot_player id)) [
  | inl bot ↦ let there = rw bot at h in (there, λ e. absurd (ground arith))
  | inr player ↦ let there = rw player at h in kept-contains id a r.players there
]

add_bot-contains :
    (r : Room) (seat bot_index a : ℕ)
    → a < k_bot_id_base
    → contains_player (add_bot_at_seat r seat bot_index).0 a ≡ true
    → contains_player r a ≡ true
unfolding add_bot_at_seat
add_bot-contains r seat b a human h =
    elim (Bool-cases (leb r.config.max_players seat || is_seat_taken r seat 0)) [
      | inl bad ↦ ground arith
      | inr good ↦
          let more = record r { players = r.players ++ bot_at seat b ∷ [] } in
          let there : contains_player more a ≡ true = ground arith in
          ground (
            arith,
            contains_player_iff r a,
            contains_player_iff more a,
            count-ids_append a r.players (bot_at seat b),
          )
    ]

fill_step-contains :
    (r next : Room) (b a : ℕ)
    → a < k_bot_id_base
    → fill_step r b ≡ some next
    → contains_player next a ≡ true
    → contains_player r a ≡ true
unfolding fill_step
fill_step-contains r next b a human h k = elim (Bool-cases (is_full r)) [
  | inl full ↦ absurd (cc (fill_step_full r b full, h))
  | inr free ↦ elim (Option-cases (first_empty_seat r)) [
    | inl off ↦ let g = rw (fill_step, free, off) at h in absurd (cc g)
    | inr (s, at_s) ↦
        let g = rw (fill_step, free, at_s) at h in
        let e : (add_bot_at_seat r s b).0 ≡ next = ground arith in
        add_bot-contains r s b a human (rw e k)
  ]
]

fill_from-contains :
    (fuel : ℕ) (r : Room) (b a : ℕ)
    → a < k_bot_id_base
    → contains_player (fill_from fuel r b) a ≡ true
    → contains_player r a ≡ true
unfolding fill_from
fill_from-contains zero r b a human h = h
fill_from-contains (suc fuel) r b a human h = elim (Option-cases (fill_step r b)) [
  | inl stop ↦ rw (fill_from_stop (suc fuel) b r stop) at h
  | inr (next, go) ↦
      let g = rw (fill_from_next fuel b r next go) at h in
      fill_step-contains r next b a human go (fill_from-contains fuel next (b + 1) a human g)
]

pub fill_bots-contains :
    (r : Room) (a : ℕ)
    → a < k_bot_id_base
    → contains_player (fill_bots r) a ≡ true
    → contains_player r a ≡ true
unfolding fill_bots
fill_bots-contains r a human h = fill_from-contains r.config.max_players r 0 a human h

pub nobody_in_new_room :
    (id : String) (owner : ℕ) (config : RoomConfig) (a : ℕ)
    → contains_player (new_room id owner config) a ≢ true
unfolding contains_player
nobody_in_new_room id owner config a h = absurd (cc h)

pub not_in :
    (r : Room) (a : ℕ) → contains_player r a ≡ false → any (λ p. p.id == a) r.players ≡ false
unfolding contains_player
not_in r a h = h
