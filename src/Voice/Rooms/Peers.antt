-- ===== src/Voice/Rooms/Peers.antt =====
-- Whose addresses a voice packet goes to.
use gd_server.Base.{
  List, Option-cases, String, [], arith, count, find_at, inl, inr, map, none, refl, remove_all,
  some, ℕ, ℕ_discrete, ◌<◌, ◌∷◌, ◌≡◌, ◌≢◌, ◌⊎◌,
}
use gd_server.Voice.Rooms.{
  VoiceClient, VoiceRoomManager, VoiceSocketAddr, members_of, peers_except, peers_in,
  room_id_for_user,
}
use gd_server.Voice.Rooms.Kept.{VoiceReach, VoiceReach-IsVoice}
use gd_server.Voice.Rooms.Members.{count-remove_all}

-- The address of a client.
abbrev pub addr_of : List (ℕ × VoiceClient) → ℕ → VoiceSocketAddr
addr_of clients u = elim (find_at clients u) [
  | none ↦ record { address = 0; port = 0 }
  | some c ↦ c.addr
]

peers_in-map :
    (clients : List (ℕ × VoiceClient)) (v : ℕ) (ms : List ℕ)
    → ((u : ℕ) → 0 < count u ms → find_at clients u ≢ none)
    → peers_in clients v ms ≡ map (addr_of clients) (remove_all ms v)
unfolding peers_in
peers_in-map clients v [] known = refl
peers_in-map clients v (x ∷ ms) known =
    let rest = peers_in-map clients v ms (λ u k. known u (ground arith)) in
    elim (ℕ_discrete x v) [
      | yes me ↦ ground (arith, rest)
      | no he ↦ elim (Option-cases (find_at clients x)) [
        | inl off ↦ absurd (known x (ground arith) off)
        | inr (c, there) ↦ ground (arith, rest)
      ]
    ]

-- After any calls of the voice server, a packet goes to the addresses of the others in the room:
-- each other client whose room it is once, and to nobody else.
pub reached_peers :
    (m : VoiceRoomManager) (v : ℕ) (r : String)
    → VoiceReach m
    → let others = remove_all (members_of m.room_members r) v in
      (peers_except m v r ≡ map (addr_of m.clients) others)
      × ((u : ℕ) → u ≢ v → room_id_for_user m u ≡ some r → count u others ≡ 1)
      × ((u : ℕ) → (u ≡ v) ⊎ (room_id_for_user m u ≢ some r) → count u others ≡ 0)
unfolding peers_except room_id_for_user
reached_peers m v r reach =
    let i = VoiceReach-IsVoice reach in
    let ms = members_of m.room_members r in
    (
      peers_in-map m.clients v ms
          (λ u k off. absurd (omega (arith, k, i.elsewhere u r (λ e. absurd (cc (off, e)))))),
      λ u ne at_r. ground (arith, count-remove_all u v ms, i.listed u r at_r),
      λ u out. elim out [
        | inl me ↦ ground (arith, count-remove_all u v ms)
        | inr away ↦ ground (arith, count-remove_all u v ms, i.elsewhere u r away)
      ],
    )
