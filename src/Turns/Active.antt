-- ===== src/Turns/Active.antt =====
-- Whose turn it is: the searches of the turn manager find the nearest seat that fits.
use native.Mathlib.Nat.{mod-lt}
use gd_server.Base.{
  &&-parts, Bool, Bool-cases, Option, arith, false, inl, inr, leb, none, refl, some, suc, true,
  zero, ℕ, ℕ_discrete, ◌%◌, ◌+◌, ◌<◌, ◌∙◌, ◌≡◌, ◌≤◌,
}
use gd_server.State.{GameState, player}
use gd_server.State.Seats.{ring_reaches}
use gd_server.Turns.{
  first_seat, is_active, is_active_of, next_active_player, resolve_round_lead_seat, seat_after,
  wind_partner_seat,
}

-- What the search with `k` rounds left from round `i` finds.

abbrev IsFirst : (ℕ → Bool) → Option ℕ → ℕ → ℕ → ℕ → Option ℕ → Type 0
IsFirst test from n k i none = (j : ℕ) → i ≤ j → j < i + k → test (seat_after from j n) ≡ false
IsFirst test from n k i (some c) =
    (j : ℕ) × (i ≤ j)
    × (j < i + k)
    × (c ≡ seat_after from j n)
    × (test c ≡ true)
    × ((m : ℕ) → i ≤ m → m < j → test (seat_after from m n) ≡ false)

module _ (test : ℕ → Bool) (from : Option ℕ) (n : ℕ) where
  later :
      (k i : ℕ) (r : Option ℕ)
      → test (seat_after from i n) ≡ false
      → IsFirst test from n k (i + 1) r
      → IsFirst test from n (suc k) i r
  later k i none e h = λ j a b. elim (ℕ_discrete i j) [
    | yes same ↦ rw (← same) e
    | no other ↦ h j (omega arith) (omega arith)
  ]
  later k i (some c) e (j, a, b, at_j, passes, earlier) = (
    j,
    omega arith,
    omega arith,
    at_j,
    passes,
    λ m p q. elim (ℕ_discrete i m) [
      | yes same ↦ rw (← same) e
      | no other ↦ earlier m (omega arith) q
    ],
  )

  first_seat-IsFirst : (k i : ℕ) → IsFirst test from n k i (first_seat test from n k i)
  unfolding first_seat
  first_seat-IsFirst zero i = λ j a b. absurd (omega arith)
  first_seat-IsFirst (suc k) i = elim (Bool-cases (test (seat_after from i n))) [
    | inl e ↦
        rw (e, first_seat) (i, omega arith, omega arith, refl, e, λ m p q. absurd (omega arith))
    | inr e ↦ rw (e, first_seat) (later k i _ e (first_seat-IsFirst k (i + 1)))
  ]

-- A seat that passes is found from any seat of the table.
search_finds :
    (test : ℕ → Bool) (n f x : ℕ)
    → f < n
    → x < n
    → test x ≡ true
    → (c : ℕ) × (first_seat test (some f) n n 1 ≡ some c) × IsFirst test (some f) n n 1 (some c)
search_finds test n f x hf hx e = cases _ refl (first_seat-IsFirst test (some f) n n 1)
  where
    cases :
        (r : Option ℕ)
        → first_seat test (some f) n n 1 ≡ r
        → IsFirst test (some f) n n 1 r
        → (c : ℕ) × (first_seat test (some f) n n 1 ≡ some c) × IsFirst test (some f) n n 1 (some c)
    cases none q h =
        let (i, lo, hi, at_x) = ring_reaches n f x hf hx in
        absurd (ground (arith, h i lo (omega arith)))
    cases (some c) q h = (c, q, h)

-- The seat `j` places after seat `f` is the nearest one that passes the test.
abbrev pub IsNearest : (ℕ → Bool) → ℕ → ℕ → ℕ → Type 0
IsNearest test n f c =
    (j : ℕ) × (0 < j)
    × (j ≤ n)
    × (c ≡ (f + j) % n)
    × (test c ≡ true)
    × ((m : ℕ) → 0 < m → m < j → test ((f + m) % n) ≡ false)

nearest :
    (test : ℕ → Bool) (n f c : ℕ) → IsFirst test (some f) n n 1 (some c) → IsNearest test n f c
nearest test n f c (j, a, b, at_j, passes, earlier) =
    (j, omega arith, omega arith, at_j, passes, earlier)

-- From a seat of the table, and while somebody there still plays, the next player is the nearest
-- one after it who has not finished.
pub next_active_player-IsNearest :
    (s : GameState) (f x : ℕ)
    → f < s.player_count
    → x < s.player_count
    → is_active s x ≡ true
    → (c : ℕ) × (next_active_player s (some f) ≡ some c)
      × IsNearest (is_active s) s.player_count f c
unfolding next_active_player
next_active_player-IsNearest s f x hf hx e =
    let (c, q, first) = search_finds (is_active s) s.player_count f x hf hx e in
    (c, rw q, nearest (is_active s) s.player_count f c first)

lt→leb : (n f : ℕ) → f < n → leb n f ≡ false
lt→leb n f h = ground arith

take_found :
    (s : GameState) (f c : ℕ)
    → f < s.player_count
    → first_seat (is_active_of s (player s f).team) (some f) s.player_count s.player_count 1
      ≡ some c
    → wind_partner_seat s f ≡ some c
unfolding wind_partner_seat
take_found s f c hf q = rw (lt→leb s.player_count f hf, q)

take_next :
    (s : GameState) (f : ℕ)
    → f < s.player_count
    → first_seat (is_active_of s (player s f).team) (some f) s.player_count s.player_count 1 ≡ none
    → wind_partner_seat s f ≡ next_active_player s (some f)
unfolding wind_partner_seat
take_next s f hf q = rw (lt→leb s.player_count f hf, q)

-- A leader who has finished hands the lead to the nearest partner who still plays, if there is one.
pub wind_partner_seat-IsNearest :
    (s : GameState) (f x : ℕ)
    → f < s.player_count
    → x < s.player_count
    → is_active s x ≡ true
    → (player s x).team ≡ (player s f).team
    → (c : ℕ) × (wind_partner_seat s f ≡ some c)
      × IsNearest (is_active_of s (player s f).team) s.player_count f c
unfolding wind_partner_seat
wind_partner_seat-IsNearest s f x hf hx e t =
    let test = is_active_of s (player s f).team in
    let fits : test x ≡ true = ground arith in
    let (c, q, first) = search_finds test s.player_count f x hf hx fits in
    (c, take_found s f c hf q, nearest test s.player_count f c first)

-- With no partner left the lead goes to the nearest player after the leader.
pub wind_partner_seat_alone :
    (s : GameState) (f : ℕ)
    → f < s.player_count
    → ((y : ℕ) → y < s.player_count → is_active_of s (player s f).team y ≡ false)
    → wind_partner_seat s f ≡ next_active_player s (some f)
unfolding wind_partner_seat
wind_partner_seat_alone s f hf alone =
    cases _ refl (
      first_seat-IsFirst (is_active_of s (player s f).team) (some f) s.player_count s.player_count
        1)
  where
    cases :
        (r : Option ℕ)
        → first_seat (is_active_of s (player s f).team) (some f) s.player_count s.player_count 1 ≡ r
        → IsFirst (is_active_of s (player s f).team) (some f) s.player_count s.player_count 1 r
        → wind_partner_seat s f ≡ next_active_player s (some f)
    cases none q h = take_next s f hf q
    cases (some c) q (j, a, b, at_j, passes, earlier) =
        let inside : c < s.player_count = rw at_j (mod-lt (f + j) (omega arith)) in
        absurd (ground (arith, alone c inside))

pub near-lt : (test : ℕ → Bool) (n f c : ℕ) → f < n → IsNearest test n f c → c < n
near-lt test n f c h (j, a, b, at_j, passes, earlier) = rw at_j (mod-lt (f + j) (omega arith))

-- The lead that a finished player hands over goes to a seat of the table that still plays.
wind_partner_seat_total :
    (s : GameState) (f x : ℕ)
    → f < s.player_count
    → x < s.player_count
    → is_active s x ≡ true
    → (c : ℕ) × (wind_partner_seat s f ≡ some c) × (c < s.player_count) × (is_active s c ≡ true)
wind_partner_seat_total s f x hf hx e =
    cases _ refl (
      first_seat-IsFirst (is_active_of s (player s f).team) (some f) s.player_count s.player_count
        1)
  where
    cases :
        (r : Option ℕ)
        → first_seat (is_active_of s (player s f).team) (some f) s.player_count s.player_count 1 ≡ r
        → IsFirst (is_active_of s (player s f).team) (some f) s.player_count s.player_count 1 r
        → (c : ℕ) × (wind_partner_seat s f ≡ some c) × (c < s.player_count) × (is_active s c ≡ true)
    cases none q h =
        let (c, at_c, near) = next_active_player-IsNearest s f x hf hx e in
        let (j, a, b, at_j, passes, earlier) = near in
        (c, take_next s f hf q ∙ at_c, near-lt (is_active s) s.player_count f c hf near, passes)
    cases (some c) q first =
        let near = nearest (is_active_of s (player s f).team) s.player_count f c first in
        let (j, a, b, at_j, passes, earlier) = near in
        (
          c,
          take_found s f c hf q,
          near-lt (is_active_of s (player s f).team) s.player_count f c hf near,
          (&&-parts _ _ passes).0,
        )

-- The seat that leads the next trick is one of the table that still plays.
pub resolve_round_lead_seat_total :
    (s : GameState) (l x : ℕ)
    → l < s.player_count
    → x < s.player_count
    → is_active s x ≡ true
    → (c : ℕ) × (resolve_round_lead_seat s (some l) ≡ some c)
      × (c < s.player_count)
      × (is_active s c ≡ true)
unfolding resolve_round_lead_seat
resolve_round_lead_seat_total s l x hl hx e = elim (Bool-cases (player s l).has_finished) [
  | inl over ↦
      let (c, q, inside, active) = wind_partner_seat_total s l x hl hx e in
      (c, rw over q, inside, active)
  | inr still ↦ (l, rw still, hl, rw still)
]

-- A leader who still plays keeps the lead.
pub resolve_round_lead_seat_active :
    (s : GameState) (l : ℕ) → is_active s l ≡ true → resolve_round_lead_seat s (some l) ≡ some l
unfolding resolve_round_lead_seat
resolve_round_lead_seat_active s l h = ground arith
