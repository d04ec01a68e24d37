-- ===== src/Room/Registry/Members.antt =====
-- In which rooms the players are.
use gd_server.Base.{
  >>=-eq-some, Bool-cases, List, Option, Option-cases, String, arith, find_at, find_at-put_at_ne,
  find_at-put_at_self, find_text, find_text-put_text_ne, find_text-put_text_self, has_at, inl, inr,
  none, put_at, put_text, same_text, some, subst, sym, true, ℕ, ◌<◌, ◌∙◌, ◌≡◌, ◌⊎◌,
}
use gd_server.Cards.{GameMode, RoomConfig, from_mode_name, solo}
use gd_server.Room.Data.{PlayerJoinInfo, Room, contains_player, k_bot_id_base, new_room}
use gd_server.Room.Registry.{RoomManager, create_room, fresh_room_id, join_room, opened_room}
use gd_server.Room.Registry.Humans.{fill_bots-contains, join-contains, nobody_in_new_room}
use gd_server.Room.Seats.{fill_bots, join}

-- The players who are in a room are mapped to it. Bots are not mapped.
pub record IsConsistent (m : RoomManager) : Type 0 where
  pub members :
      (id : String) (r : Room) (a : ℕ)
      → find_text m.rooms id ≡ some r
      → contains_player r a ≡ true
      → a < k_bot_id_base
      → find_at m.player_rooms a ≡ some id

-- A player who is in no room enters one.
enters-IsConsistent :
    (m : RoomManager) (id : String) (r : Room) (player_id : ℕ)
    → find_at m.player_rooms player_id ≡ none
    → ((a : ℕ)
        → contains_player r a ≡ true
        → a < k_bot_id_base
        → (a ≡ player_id) ⊎ (find_at m.player_rooms a ≡ some id))
    → IsConsistent m
    → IsConsistent (record m {
      rooms = put_text m.rooms id r;
      player_rooms = put_at m.player_rooms player_id id;
    })
enters-IsConsistent m id r player_id out inside c = record {
  members = λ other s a h k human. elim (same_text id other) [
    | inl same ↦
        let at_other = rw (← same) at h in
        let is_r : r ≡ s = cc (at_other, find_text-put_text_self m.rooms id r) in
        rw (← same) (mapped a (inside a (rw is_r k) human))
    | inr apart ↦
        let there =
          c.members other s a (sym (find_text-put_text_ne m.rooms id other r apart) ∙ h) k human in
        find_at-put_at_ne m.player_rooms player_id a id (λ me. not_there a other me there) ∙ there
  ];
}
  where
    not_there : (a : ℕ) (other : String) → player_id ≡ a → find_at m.player_rooms a ≡ some other → ⊥
    not_there a other me there = absurd (cc (out, there, me))

    mapped :
        (a : ℕ)
        → (a ≡ player_id) ⊎ (find_at m.player_rooms a ≡ some id)
        → find_at (put_at m.player_rooms player_id id) a ≡ some id
    mapped a (inl me) = rw me (find_at-put_at_self m.player_rooms player_id id)
    mapped a (inr there) =
        find_at-put_at_ne m.player_rooms player_id a id (λ me. not_there a id me there) ∙ there

-- A room changes, and nobody enters it.
pub changes-IsConsistent :
    (m : RoomManager) (id : String) (r s : Room)
    → find_text m.rooms id ≡ some r
    → ((a : ℕ) → a < k_bot_id_base → contains_player s a ≡ true → contains_player r a ≡ true)
    → IsConsistent m
    → IsConsistent (record m { rooms = put_text m.rooms id s })
changes-IsConsistent m id r s at_id fewer c = record {
  members = λ other t a h k human. elim (same_text id other) [
    | inl same ↦
        let at_other = rw (← same) at h in
        let is_s : s ≡ t = cc (at_other, find_text-put_text_self m.rooms id s) in
        rw (← same) (c.members id r a at_id (fewer a human (rw is_s k)) human)
    | inr apart ↦
        c.members other t a (sym (find_text-put_text_ne m.rooms id other s apart) ∙ h) k human
  ];
}

pub join_room-IsConsistent :
    (m : RoomManager) (id : String) (a : ℕ) (info : PlayerJoinInfo)
    → IsConsistent m
    → IsConsistent (join_room m id a info).0
unfolding join_room
join_room-IsConsistent m id a info c = elim (Option-cases (find_at m.player_rooms a)) [
  | inr (other, there) ↦ rw (join_room, has_at, there) c
  | inl out ↦ elim (Option-cases (find_text m.rooms id)) [
    | inl gone ↦ rw (join_room, has_at, out, gone) c
    | inr (r, at_id) ↦ elim (Bool-cases (join r a info).1) [
      | inr closed ↦ rw (join_room, has_at, out, at_id, closed) c
      | inl open_room ↦
          rw (join_room, has_at, out, at_id, open_room)
            (enters-IsConsistent m id (join r a info).0 a out
              (λ x h human. elim (join-contains r a info x h) [
                | inl me ↦ inl me
                | inr before ↦ inr (c.members id r x at_id before human)
              ])
              c)
    ]
  ]
]

opened_room-contains :
    (id : String) (owner : ℕ) (info : PlayerJoinInfo) (mode : String) (a : ℕ)
    → contains_player (opened_room id owner info mode) a ≡ true
    → a < k_bot_id_base
    → a ≡ owner
unfolding opened_room
opened_room-contains id owner info mode a h human =
    from_mode (from_mode_name mode) (from_mode_name mode).mode h
  where
    only_owner :
        (config : RoomConfig)
        → contains_player (join (new_room id owner config) owner info).0 a ≡ true
        → a ≡ owner
    only_owner config k = elim (join-contains (new_room id owner config) owner info a k) [
      | inl me ↦ me
      | inr before ↦ absurd (nobody_in_new_room id owner config a before)
    ]

    from_mode :
        (config : RoomConfig) (mode : GameMode)
        → contains_player
            (elim mode [
              | solo ↦ fill_bots (join (new_room id owner config) owner info).0
              | _ ↦ (join (new_room id owner config) owner info).0
            ])
            a
          ≡ true
        → a ≡ owner
    from_mode config solo k =
        only_owner config
          (fill_bots-contains (join (new_room id owner config) owner info).0 a human k)
    from_mode config _ k = only_owner config k

pub create_room-IsConsistent :
    (ids : List String) (m n : RoomManager) (owner : ℕ) (info : PlayerJoinInfo) (mode : String)
    (made : Option String)
    → create_room ids m owner info mode ≡ some (n, made)
    → IsConsistent m
    → IsConsistent n
unfolding create_room
create_room-IsConsistent ids m n owner info mode made h c =
    elim (Option-cases (find_at m.player_rooms owner)) [
      | inr (other, there) ↦
          let g = rw (has_at, there) at h in
          let same : m ≡ n = ground arith in subst (λ (z : RoomManager). IsConsistent z) same c
      | inl out ↦
          let g = rw (has_at, out) at h in
          let (id, fresh, opened) = >>=-eq-some (fresh_room_id m.rooms ids) _ g in
          elim (Bool-cases m.has_executor) [
            | inr off ↦
                let same : m ≡ n = ground arith in
                subst (λ (z : RoomManager). IsConsistent z) same c
            | inl on ↦
                let same : record m {
                  rooms = put_text m.rooms id (opened_room id owner info mode);
                  player_rooms = put_at m.player_rooms owner id;
                }
                    ≡ n =
                  ground arith in
                subst (λ (z : RoomManager). IsConsistent z) same
                  (enters-IsConsistent m id (opened_room id owner info mode) owner out
                    (λ a k human. inl (opened_room-contains id owner info mode a k human)) c)
          ]
    ]
