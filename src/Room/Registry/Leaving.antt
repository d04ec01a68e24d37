-- ===== src/Room/Registry/Leaving.antt =====
-- A room that goes, and a player who leaves.

use gd_server.Base.{
  Bool, Bool-cases, List, Option-cases, String, [], any, ap, arith, erase_at, false, find_at,
  find_at-erase_at_ne, find_text, find_text-erase_text_ne, find_text-erase_text_self,
  find_text-put_text_self, if◌then◌else◌, inl, inr, put_text, refl, same_text, some, sym, true, ℕ,
  ℕ_discrete, ◌==◌, ◌∙◌, ◌∷◌, ◌≡◌, ◌≢◌,
}
use gd_server.Room.Data.{Room, RoomPlayer, contains_player, is_bot_player, is_room_empty}
use gd_server.Room.Registry.{
  RoomManager, drop_if_empty, erase_humans, handle_leave_room, remove_player_from_room, remove_room,
}
use gd_server.Room.Registry.Humans.{leave-contains, not_in}
use gd_server.Room.Registry.Members.{IsConsistent, changes-IsConsistent}
use gd_server.Room.Seats.{leave}

erase_humans-other :
    (ps : List RoomPlayer) (rooms : List (ℕ × String)) (a : ℕ)
    → any (λ p. p.id == a) ps ≡ false
    → find_at (erase_humans ps rooms) a ≡ find_at rooms a
unfolding erase_humans
erase_humans-other [] rooms a h = refl
erase_humans-other (p ∷ ps) rooms a h =
    erase_humans-other ps (if is_bot_player p.id then rooms else erase_at rooms p.id) a
      (ground arith)
    ∙ one (is_bot_player p.id)
  where
    one : (b : Bool) → find_at (if b then rooms else erase_at rooms p.id) a ≡ find_at rooms a
    one true = refl
    one false = find_at-erase_at_ne rooms p.id a (ground arith)

pub remove_room-IsConsistent :
    (m : RoomManager) (id : String) → IsConsistent m → IsConsistent (remove_room m id)
unfolding remove_room
remove_room-IsConsistent m id c = elim (Option-cases (find_text m.rooms id)) [
  | inl gone ↦ rw (remove_room, gone) c
  | inr (r, at_id) ↦
      rw (remove_room, at_id)
        record {
          members = λ other s b h k human. elim (same_text id other) [
            | inl same ↦
                let at_other = rw (← same) at h in
                absurd (cc (at_other, find_text-erase_text_self m.rooms id))
            | inr apart ↦
                let there =
                  c.members other s b (sym (find_text-erase_text_ne m.rooms id other apart) ∙ h) k
                    human in
                elim (Bool-cases (contains_player r b)) [
                  | inl inside ↦
                      absurd (apart (some_eq (cc (there, c.members id r b at_id inside human))))
                  | inr outside ↦
                      erase_humans-other r.players m.player_rooms b (not_in r b outside) ∙ there
                ]
          ];
        }
]
  where
    some_eq : {i j : String} → some i ≡ some j → i ≡ j
    some_eq e = cc e

drop_if_empty-found :
    (rooms : List (String × Room)) (id other : String) (s : Room)
    → find_text (drop_if_empty rooms id) other ≡ some s
    → find_text rooms other ≡ some s
unfolding drop_if_empty
drop_if_empty-found rooms id other s h = elim (Option-cases (find_text rooms id)) [
  | inl gone ↦ rw (drop_if_empty, gone) at h
  | inr (r, at_id) ↦
      let g = rw (drop_if_empty, at_id) at h in
      elim (Bool-cases (is_room_empty r)) [
        | inr stays ↦ rw stays at g
        | inl goes ↦
            let g' = rw goes at g in
            elim (same_text id other) [
              | inl same ↦
                  let at_other = rw (← same) at g' in
                  absurd (cc (at_other, find_text-erase_text_self rooms id))
              | inr apart ↦ sym (find_text-erase_text_ne rooms id other apart) ∙ g'
            ]
      ]
]

-- The player has left the room, and is no longer mapped to it.
unmapped-IsConsistent :
    (m : RoomManager) (a : ℕ) (id : String)
    → find_at m.player_rooms a ≡ some id
    → ((s : Room) → find_text m.rooms id ≡ some s → contains_player s a ≢ true)
    → IsConsistent m
    → IsConsistent
        (record m { rooms = drop_if_empty m.rooms id; player_rooms = erase_at m.player_rooms a })
unmapped-IsConsistent m a id at_id left c = record {
  members = λ other s b h k human.
      let h' = drop_if_empty-found m.rooms id other s h in
      let there = c.members other s b h' k human in
      elim (ℕ_discrete a b) [
        | yes me ↦ absurd (gone other s b me h' k there)
        | no he ↦ find_at-erase_at_ne m.player_rooms a b he ∙ there
      ];
}
  where
    gone :
        (other : String) (s : Room) (b : ℕ)
        → a ≡ b
        → find_text m.rooms other ≡ some s
        → contains_player s b ≡ true
        → find_at m.player_rooms b ≡ some other
        → ⊥
    gone other s b me h k there =
        let same : other ≡ id = cc (at_id, there, me) in
        left s (ap (find_text m.rooms) (sym same) ∙ h) (ap (contains_player s) me ∙ k)

left_for_good :
    (r s : Room) (a : ℕ)
    → is_bot_player a ≡ false
    → some (leave r a) ≡ some s
    → contains_player s a ≢ true
left_for_good r s a human e h =
    let same : leave r a ≡ s = cc e in
    (leave-contains r a a (ground arith) (ap (λ z. contains_player z a) same ∙ h)).1 refl

pub handle_leave_room-IsConsistent :
    (m : RoomManager) (a : ℕ) → IsConsistent m → IsConsistent (handle_leave_room m a)
unfolding handle_leave_room remove_player_from_room
handle_leave_room-IsConsistent m a c = elim (Option-cases (find_at m.player_rooms a)) [
  | inl out ↦ rw (handle_leave_room, out) c
  | inr (id, at_id) ↦ elim (Option-cases (find_text m.rooms id)) [
    | inl gone ↦ rw (handle_leave_room, at_id, gone) c
    | inr (r, here_room) ↦
        let m1 = record m { rooms = put_text m.rooms id (leave r a) } in
        let c1 : IsConsistent m1 =
          changes-IsConsistent m id r (leave r a) here_room
            (λ b human k. (leave-contains r a b human k).0) c in
        rw (handle_leave_room, at_id, here_room)
          (elim (Bool-cases (is_bot_player a)) [
            | inl bot ↦ rw (remove_player_from_room, bot) c1
            | inr human ↦
                rw (remove_player_from_room, human, at_id)
                  (unmapped-IsConsistent m1 a id at_id
                    (λ s h k.
                      left_for_good r s a human
                        (sym (find_text-put_text_self m.rooms id (leave r a)) ∙ h) k)
                    c1)
          ])
  ]
]
