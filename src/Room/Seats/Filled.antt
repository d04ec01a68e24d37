-- ===== src/Room/Seats/Filled.antt =====
-- `fillBots` gives every free seat to a bot.

use gd_server.Base.{
  Bool-cases, [], arith, count, false, inl, inr, leb, length, length-append, none, refl, some, suc,
  true, zero, ℕ, ◌++◌, ◌+◌, ◌<◌, ◌↔◌, ◌∷◌, ◌≡◌, ◌≤◌,
}
use gd_server.Room.Data.{Room, is_full, is_seat_taken, k_bot_id_base}
use gd_server.Room.Seats.{
  add_bot_at_seat, bot_at, fill_bots, fill_from, fill_step, first_empty_seat,
}
use gd_server.Room.Seats.Kept.{append-IsSeated, count-ids_append}
use gd_server.Room.Seats.Taken.{IsSeated, first_empty_seat-found, free-count, ids_of_room}

pub fill_step_full : (r : Room) (b : ℕ) → is_full r ≡ true → fill_step r b ≡ none
unfolding fill_step
fill_step_full r b h = rw h refl

fill_step_found :
    (r : Room) (b s : ℕ)
    → is_full r ≡ false
    → first_empty_seat r ≡ some s
    → s < r.config.max_players
    → is_seat_taken r s 0 ≡ false
    → fill_step r b ≡ some (record r { players = r.players ++ bot_at s b ∷ [] })
unfolding fill_step add_bot_at_seat
fill_step_found r b s h e l free =
    let fits : leb r.config.max_players s ≡ false = ground arith in rw (h, e, fits, free) refl

pub fill_from_stop : (fuel b : ℕ) (r : Room) → fill_step r b ≡ none → fill_from fuel r b ≡ r
unfolding fill_from
fill_from_stop zero b r h = refl
fill_from_stop (suc fuel) b r h = rw (h, fill_from) refl

pub fill_from_next :
    (fuel b : ℕ) (r next : Room)
    → fill_step r b ≡ some next
    → fill_from (suc fuel) r b ≡ fill_from fuel next (b + 1)
unfolding fill_from
fill_from_next fuel b r next h = rw (h, fill_from) refl

pub is_full_iff : (r : Room) → (is_full r ≡ true) ↔ (r.config.max_players ≤ length r.players)
unfolding is_full
is_full_iff r = ground arith

-- What the loop leaves.
pub record IsFilled (r t : Room) : Type 0 where
  pub seated : IsSeated t.players t.config.max_players
  pub full : is_full t ≡ true
  pub same_config : t.config ≡ r.config
  pub kept :
      (a : ℕ)
      → a < k_bot_id_base
      → count a (ids_of_room t.players) ≡ count a (ids_of_room r.players)

already_full :
    (r : Room) → IsSeated r.players r.config.max_players → is_full r ≡ true → IsFilled r r
already_full r v full = record { seated = v; full = full; same_config = refl; kept = λ a h. refl }

fill_from-IsFilled :
    (fuel b : ℕ) (r : Room)
    → IsSeated r.players r.config.max_players
    → r.config.max_players ≤ length r.players + fuel
    → ((a : ℕ) → k_bot_id_base + b < a → count a (ids_of_room r.players) ≡ 0)
    → IsFilled r (fill_from fuel r b)
fill_from-IsFilled zero b r v enough fresh = no_fuel v (ground (arith, is_full_iff r))
  where
    no_fuel :
        IsSeated r.players r.config.max_players → is_full r ≡ true → IsFilled r (fill_from 0 r b)
    no_fuel v full = rw (fill_from_stop 0 b r (fill_step_full r b full)) (already_full r v full)
fill_from-IsFilled (suc fuel) b r v enough fresh = elim (Bool-cases (is_full r)) [
  | inl full ↦ rw (fill_from_stop (suc fuel) b r (fill_step_full r b full)) (already_full r v full)
  | inr free ↦
      let (s, e, l, at_s) = first_empty_seat-found r v (ground (arith, is_full_iff r)) in
      let next = record r { players = r.players ++ bot_at s b ∷ [] } in
      let new : count (k_bot_id_base + (b + 1)) (ids_of_room r.players) ≡ 0 =
        fresh (k_bot_id_base + (b + 1)) (omega arith) in
      let v' =
        append-IsSeated r.players r.config.max_players s (bot_at s b) v refl l
          (free-count r s v.no_zero at_s) (omega arith) new in
      let rest =
        fill_from-IsFilled fuel (b + 1) next v'
          (omega (arith, enough, length-append r.players (bot_at s b ∷ [])))
          (λ a h. ground (arith, count-ids_append a r.players (bot_at s b), fresh a)) in
      rw (fill_from_next fuel b r next (fill_step_found r b s free e l at_s)) record {
        seated = rest.seated;
        full = rest.full;
        same_config = rest.same_config;
        kept = λ a h. ground (arith, rest.kept a h, count-ids_append a r.players (bot_at s b));
      }
]

-- A room of seated players, none of them a bot yet, is full after `fillBots`: everybody has a seat
-- of their own, and the players who were there are there still.
pub fill_bots-IsFilled :
    (r : Room)
    → IsSeated r.players r.config.max_players
    → ((a : ℕ) → k_bot_id_base < a → count a (ids_of_room r.players) ≡ 0)
    → IsFilled r (fill_bots r)
unfolding fill_bots
fill_bots-IsFilled r v fresh =
    fill_from-IsFilled r.config.max_players 0 r v (omega arith) (λ a h. fresh a (omega arith))
