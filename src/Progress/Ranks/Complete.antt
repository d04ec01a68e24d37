-- ===== src/Progress/Ranks/Complete.antt =====
-- When a round ends, every player gets a rank.
use native.Mathlib.Nat.{add-mod_right, mod-add-mod, mod-eq_of_lt, mod-lt}
use gd_server.Base.{
  Bool-cases, Option, ap, arith, false, inl, inr, leb, length, none, refl, some, suc, sym, true,
  zero, ℕ, ℕ_discrete, ◌%◌, ◌+◌, ◌<◌, ◌∙◌, ◌≡◌, ◌≢◌, ◌≤◌, ◌⊎◌,
}
use gd_server.Progress.Ranks.{
  assign_after, assign_from, assign_remaining_finish_ranks, last_finished_from,
}
use gd_server.Progress.Ranks.Given.{IsRanked, given, given-IsRanked, given_other, given_self}
use gd_server.Progress.Ranks.Last.{IsLast, last_finished_from-IsLast}
use gd_server.Progress.Ranks.Open.{unfinished, unfinished_finish, unfinished_none}
use gd_server.State.{GameState, PlayerState, player}
use gd_server.State.Seats.{length-set_player, ring_reaches}

-- A table that the second loop may meet: the next rank is one more than the number of players who
-- have finished.
record IsCounted (s : GameState) (r : ℕ) : Type 0 where
  ranked : IsRanked s r
  some_rank : 0 < r
  total : r + unfinished s s.player_count 0 ≡ s.player_count + 1
  room : s.player_count ≤ length s.players

-- What the loop leaves after `k` steps from a seat.
record IsAssigned (s t : GameState) (k seat : ℕ) : Type 0 where
  next : ℕ
  counted : IsCounted t next
  size : t.player_count ≡ s.player_count
  kept : (x : ℕ) → (player s x).has_finished ≡ true → player t x ≡ player s x
  reached : (j : ℕ) → j < k → (player t ((seat + j) % s.player_count)).has_finished ≡ true

given-IsCounted :
    (s : GameState) (seat r : ℕ)
    → seat < s.player_count
    → (player s seat).has_finished ≡ false
    → IsCounted s r
    → IsCounted (given s seat r) (r + 1)
given-IsCounted s seat r h f c =
    let inside : seat < length s.players = omega (arith, c.room) in
    let p = record (player s seat) { has_finished = true; finish_rank = r } in
    let less =
      unfinished_finish s s.player_count 0 seat p (omega arith) (omega arith) inside f refl in
    record {
      ranked = given-IsRanked s seat r inside c.some_rank c.ranked;
      some_rank = omega arith;
      total = omega (arith, c.total, less);
      room = rw (length-set_player s seat p) c.room;
    }

-- The seats after the first step are those from the next seat on.
next_seat : (n seat j : ℕ) → ((seat + 1) % n + j) % n ≡ (seat + suc j) % n
next_seat n seat j = mod-add-mod (seat + 1) n j ∙ ap (λ x. x % n) (omega arith)

all_finished :
    (s : GameState) (r x : ℕ)
    → IsCounted s r
    → s.player_count < r
    → x < s.player_count
    → (player s x).has_finished ≡ true
all_finished s r x c h hx =
    unfinished_none s s.player_count 0 x (omega (arith, c.total)) (omega arith) (omega arith)

-- A step that ends with the first seat finished, followed by the rest of the loop.
step-IsAssigned :
    (s m t : GameState) (k seat : ℕ)
    → seat < s.player_count
    → m.player_count ≡ s.player_count
    → (player m seat).has_finished ≡ true
    → ((x : ℕ) → (player s x).has_finished ≡ true → player m x ≡ player s x)
    → IsAssigned m t k ((seat + 1) % m.player_count)
    → IsAssigned s t (suc k) seat
step-IsAssigned s m t k seat h size f kept a = record {
  next = a.next;
  counted = a.counted;
  size = a.size ∙ size;
  kept = λ x g. let e = kept x g in a.kept x (ap (λ (q : PlayerState). q.has_finished) e ∙ g) ∙ e;
  reached = reach;
}
  where
    reach : (j : ℕ) → j < suc k → (player t ((seat + j) % s.player_count)).has_finished ≡ true
    reach zero l =
        let e : (seat + 0) % s.player_count ≡ seat =
          ap (λ x. x % s.player_count) (omega arith) ∙ mod-eq_of_lt h in
        rw e (ap (λ (q : PlayerState). q.has_finished) (a.kept seat f) ∙ f)
    reach (suc j) l =
        let e = next_seat s.player_count seat j in rw (← e, ← size) (a.reached j (omega arith))

assign_from-IsAssigned :
    (s : GameState) (k r seat : ℕ)
    → seat < s.player_count
    → IsCounted s r
    → IsAssigned s (assign_from s k r seat) k seat
unfolding assign_from
assign_from-IsAssigned s zero r seat h c = record {
  next = r;
  counted = c;
  size = refl;
  kept = λ x f. refl;
  reached = λ j l. absurd (omega arith);
}
assign_from-IsAssigned s (suc k) r seat h c =
    let n = s.player_count in
    let nonempty : 0 < n = omega arith in
    let g = given s seat r in
    let again = assign_from-IsAssigned s k r ((seat + 1) % n) (mod-lt (seat + 1) nonempty) c in
    let onward = λ (f : (player s seat).has_finished ≡ false).
      assign_from-IsAssigned g k (r + 1) ((seat + 1) % n) (mod-lt (seat + 1) nonempty)
        (given-IsCounted s seat r h f c) in
    elim (Bool-cases (leb r n)) [
      | inr past ↦ rw past record {
        next = r;
        counted = c;
        size = refl;
        kept = λ x f. refl;
        reached =
            λ j l. all_finished s r ((seat + j) % n) c (ground arith) (mod-lt (seat + j) nonempty);
      }
      | inl in_range ↦ elim (Bool-cases (player s seat).has_finished) [
        | inl f ↦ rw (in_range, f) (step-IsAssigned s s _ k seat h refl f (λ x e. refl) again)
        | inr f ↦
            rw (in_range, f)
              (step-IsAssigned s g _ k seat h refl (given_self s seat r (omega (arith, c.room))).0
                (λ x e.
                  given_other s seat r x
                    (λ q. ground (arith, ap (λ (z : ℕ). (player s z).has_finished) q)))
                (onward f))
      ]
    ]

assign_after-IsAssigned :
    (s : GameState) (r : ℕ) (found : Option ℕ × ℕ)
    → IsCounted s (r + 2)
    → IsLast found (r + 2) s.player_count
    → (seat : ℕ) × (seat < s.player_count) × IsAssigned s (assign_after s found) s.player_count seat
unfolding assign_after
assign_after-IsAssigned s r (none, m) c (last, l, e, g) = ground arith
assign_after-IsAssigned s r (some x, zero) c (last, l, e, g) = absurd (omega arith)
assign_after-IsAssigned s r (some x, suc m) c (last, l, e, g) =
    let nonempty : 0 < s.player_count = omega arith in
    let seat = (x + 1) % s.player_count in
    let h : seat < s.player_count = mod-lt (x + 1) nonempty in
    let next : suc m + 1 ≡ r + 2 = omega arith in
    (seat, h, rw next (assign_from-IsAssigned s s.player_count (r + 2) seat h c))

reached_all :
    (s t : GameState) (seat x : ℕ)
    → IsAssigned s t s.player_count seat
    → seat < s.player_count
    → x < s.player_count
    → (player t x).has_finished ≡ true
reached_all s t seat x a h hx =
    let (i, i0, le, e) = ring_reaches s.player_count seat x h hx in
    elim (ℕ_discrete i s.player_count) [
      | yes q ↦
          let turn : (seat + 0) % s.player_count ≡ (seat + i) % s.player_count =
            ap (λ z. z % s.player_count) (omega arith)
            ∙ sym (add-mod_right seat s.player_count)
            ∙ ap (λ z. (seat + z) % s.player_count) (sym q) in
          rw (← e, ← turn) (a.reached 0 (omega arith))
      | no nq ↦ rw (← e) (a.reached i (omega arith))
    ]

-- When the finished players have the ranks from 1 to `r + 1`, one each, the end of a round leaves
-- every player finished with a rank from 1 to the number of players, no two with the same, and
-- nothing changed for those who had finished.
pub assign_remaining_finish_ranks_complete :
    (s : GameState) (r last x y : ℕ)
    → IsRanked s (r + 2)
    → r + 2 + unfinished s s.player_count 0 ≡ s.player_count + 1
    → s.player_count ≤ length s.players
    → last < s.player_count
    → (player s last).has_finished ≡ true
    → (player s last).finish_rank ≡ r + 1
    → x < s.player_count
    → y < s.player_count
    → ((player (assign_remaining_finish_ranks s) x).has_finished ≡ true)
      × (0 < (player (assign_remaining_finish_ranks s) x).finish_rank)
      × ((player (assign_remaining_finish_ranks s) x).finish_rank ≤ s.player_count)
      × ((x ≡ y)
          ⊎ ((player (assign_remaining_finish_ranks s) x).finish_rank
              ≢ (player (assign_remaining_finish_ranks s) y).finish_rank))
      × (((player s x).has_finished ≡ false)
          ⊎ (player (assign_remaining_finish_ranks s) x ≡ player s x))
unfolding assign_remaining_finish_ranks
assign_remaining_finish_ranks_complete s r last x y v total room l f e hx hy =
    let n = s.player_count in
    let c : IsCounted s (r + 2) = record {
      ranked = v;
      some_rank = omega arith;
      total = total;
      room = room;
    } in
    let (w, wl, w0, w1) =
      last_finished_from-IsLast s n 0 none 0 (r + 2) last (omega arith) (omega arith) (omega arith)
        f (omega arith) (λ z h g. (v.bounded z (omega (arith, h)) g).1) in
    let (seat, inside, a) =
      assign_after-IsAssigned s r (last_finished_from s n 0 none 0) c (w, omega arith, w0, w1) in
    let t = assign_after s (last_finished_from s n 0 none 0) in
    let fin = λ (z : ℕ) (h : z < n). reached_all s t seat z a inside h in
    let hx' : x < t.player_count = rw a.size hx in
    let hy' : y < t.player_count = rw a.size hy in
    let bound = a.counted.ranked.bounded x hx' (fin x hx) in
    (
      fin x hx,
      bound.0,
      omega (arith, bound.1, a.counted.total, a.size),
      elim (ℕ_discrete x y) [
        | yes q ↦ inl q
        | no nq ↦
            inr (λ same. nq (a.counted.ranked.distinct x y hx' hy' (fin x hx) (fin y hy) same))
      ],
      elim (Bool-cases (player s x).has_finished) [ inl g ↦ inr (a.kept x g) | inr g ↦ inl g ],
    )
