-- ===== src/Room/Vote/Decision.antt =====
-- What the vote decides, by what each player said last.

use gd_server.Base.{
  All, Bool, List, Option, [], all, ap, arith, count, elem, elem_iff, false, if◌then◌else◌, inl,
  inr, length, none, refl, some, true, ℕ, ℕ_discrete, ◌&&◌, ◌<◌, ◌==◌, ◌↔◌, ◌∙◌, ◌∷◌, ◌≡◌, ◌≤◌, ◌⊎◌,
}
use gd_server.Room.Vote.{
  DismissVote, DismissVoteEntry, all_agreed, mark_requester, no_vote, record_in, record_vote, start,
}

-- What each player has said so far; the votes come in order.
abbrev pub said : (ℕ → Option Bool) → List (ℕ × Bool) → ℕ → Option Bool
said f [] id = f id
said f ((voter, agree) ∷ votes) id = said (λ x. if voter == x then some agree else f x) votes id

-- What they have said when the vote has been started.
abbrev pub at_start : ℕ → ℕ → Option Bool
at_start requester id = if requester == id then some true else none

-- The votes recorded one after the other.
pub cast_all : DismissVote → List (ℕ × Bool) → DismissVote
unfolding record_vote
cast_all vote [] = vote
cast_all vote ((id, agree) ∷ votes) = cast_all (record_vote vote id agree).0 votes

abbrev pub voters : List DismissVoteEntry → List ℕ
voters [] = []
voters (v ∷ vs) = v.player_id ∷ voters vs

-- The entry of a player who has said this.
abbrev entry_of : DismissVoteEntry → Option Bool → DismissVoteEntry
entry_of v none = record v { voted = false; agree = false }
entry_of v (some agree) = record v { voted = true; agree = agree }

abbrev ballot : (ℕ → Option Bool) → List DismissVoteEntry → List DismissVoteEntry
ballot f [] = []
ballot f (v ∷ vs) = entry_of v (f v.player_id) ∷ ballot f vs

entry_of_id : (v : DismissVoteEntry) (o : Option Bool) → (entry_of v o).player_id ≡ v.player_id
entry_of_id v none = refl
entry_of_id v (some b) = refl

entry_of_again :
    (v : DismissVoteEntry) (o : Option Bool) (b : Bool)
    → record (entry_of v o) { voted = true; agree = b } ≡ entry_of v (some b)
entry_of_again v none b = refl
entry_of_again v (some c) b = refl

-- Votes of players without an entry change nothing.
ballot_absent :
    (f : ℕ → Option Bool) (id : ℕ) (o : Option Bool) (vs : List DismissVoteEntry)
    → elem id (voters vs) ≡ false
    → ballot (λ x. if id == x then o else f x) vs ≡ ballot f vs
ballot_absent f id o [] h = refl
ballot_absent f id o (v ∷ vs) h =
    let other : (id == v.player_id) ≡ false = ground arith in
    rw (other, ballot_absent f id o vs (ground arith)) refl

record_in-ballot :
    (f : ℕ → Option Bool) (id : ℕ) (b : Bool) (vs : List DismissVoteEntry)
    → ((a : ℕ) → count a (voters vs) ≤ 1)
    → ((elem id (voters vs) ≡ false) × (record_in id b (ballot f vs) ≡ none))
      ⊎ (record_in id b (ballot f vs) ≡ some (ballot (λ x. if id == x then some b else f x) vs))
unfolding record_in
record_in-ballot f id b [] h = inl (refl, refl)
record_in-ballot f id b (v ∷ vs) h = elim (ℕ_discrete v.player_id id) [
  | yes same ↦
      let here : ((entry_of v (f v.player_id)).player_id == id) ≡ true =
        rw (entry_of_id v (f v.player_id)) (ground arith) in
      let me : (id == v.player_id) ≡ true = ground arith in
      let absent : elem id (voters vs) ≡ false = ground (arith, h id, elem_iff id (voters vs)) in
      inr (
        rw (here, me, ballot_absent f id (some b) vs absent, entry_of_again v (f v.player_id) b)
          refl)
  | no other ↦
      let there : ((entry_of v (f v.player_id)).player_id == id) ≡ false =
        rw (entry_of_id v (f v.player_id)) (ground arith) in
      let you : (id == v.player_id) ≡ false = ground arith in
      elim (record_in-ballot f id b vs (λ a. ground (arith, h a))) [
        | inl (absent, e) ↦ inl (ground arith, rw (there, e) refl)
        | inr e ↦ inr (rw (there, you, e) refl)
      ]
]

record_vote-ballot :
    (f : ℕ → Option Bool) (r id : ℕ) (b : Bool) (vs : List DismissVoteEntry)
    → ((a : ℕ) → count a (voters vs) ≤ 1)
    → (record_vote (record { active = true; requester_id = r; entries = ballot f vs }) id b).0
      ≡ record {
        active = true;
        requester_id = r;
        entries = ballot (λ x. if id == x then some b else f x) vs;
      }
unfolding record_vote
record_vote-ballot f r id b vs h = elim (record_in-ballot f id b vs h) [
  | inl (absent, e) ↦ rw (e, ballot_absent f id (some b) vs absent) refl
  | inr e ↦ rw e refl
]

cast_all-ballot :
    (f : ℕ → Option Bool) (r : ℕ) (vs : List DismissVoteEntry) (votes : List (ℕ × Bool))
    → ((a : ℕ) → count a (voters vs) ≤ 1)
    → cast_all (record { active = true; requester_id = r; entries = ballot f vs }) votes
      ≡ record { active = true; requester_id = r; entries = ballot (said f votes) vs }
unfolding cast_all
cast_all-ballot f r vs [] h = refl
cast_all-ballot f r vs ((id, b) ∷ votes) h =
    ap (λ v. cast_all v votes) (record_vote-ballot f r id b vs h)
    ∙ cast_all-ballot (λ x. if id == x then some b else f x) r vs votes h

-- Entries as they are before anybody has voted.
abbrev pub Fresh : List DismissVoteEntry → Type 0
Fresh vs = All (λ (v : DismissVoteEntry). (v.voted ≡ false) × (v.agree ≡ false)) vs

fresh_entry :
    (r : ℕ) (v : DismissVoteEntry)
    → v.voted ≡ false
    → v.agree ≡ false
    → (if v.player_id == r then record v { voted = true; agree = true } else v)
      ≡ entry_of v (at_start r v.player_id)
fresh_entry r v p q = ground arith

mark_requester-ballot :
    (r : ℕ) (vs : List DismissVoteEntry) → Fresh vs → mark_requester r vs ≡ ballot (at_start r) vs
unfolding mark_requester
mark_requester-ballot r [] h = refl
mark_requester-ballot r (v ∷ vs) ((p, q), h) =
    rw (fresh_entry r v p q, mark_requester-ballot r vs h) refl

entry_agrees :
    (v : DismissVoteEntry) (o : Option Bool) (rest : Bool)
    → ((if (entry_of v o).voted && (entry_of v o).agree then rest else false) ≡ true)
      ↔ ((o ≡ some true) × (rest ≡ true))
entry_agrees v none rest = (λ h. ground arith, λ h. ground arith)
entry_agrees v (some true) rest = (λ h. (refl, h), λ h. h.1)
entry_agrees v (some false) rest = (λ h. ground arith, λ h. ground arith)

all-ballot :
    (f : ℕ → Option Bool) (vs : List DismissVoteEntry)
    → (all (λ (v : DismissVoteEntry). v.voted && v.agree) (ballot f vs) ≡ true)
      ↔ All (λ (v : DismissVoteEntry). f v.player_id ≡ some true) vs
all-ballot f [] = (λ h. tt, λ h. refl)
all-ballot f (v ∷ vs) =
    let one = entry_agrees v (f v.player_id) (all (λ w. w.voted && w.agree) (ballot f vs)) in
    (λ h. ((one.0 h).0, (all-ballot f vs).0 (one.0 h).1), λ h. one.1 (h.0, (all-ballot f vs).1 h.1))

-- A vote that a player starts among players with entries of their own is won exactly when there is
-- somebody and the last word of each is yes; the start is the first word of the one who starts it.
-- Votes of others do not count.
pub vote_agreed_iff :
    (requester : ℕ) (humans : List DismissVoteEntry) (votes : List (ℕ × Bool))
    → Fresh humans
    → ((a : ℕ) → count a (voters humans) ≤ 1)
    → (all_agreed (cast_all (start no_vote requester humans).0 votes) ≡ true) ↔ (
        (0 < length humans)
        × All
            (λ (v : DismissVoteEntry). said (at_start requester) votes v.player_id ≡ some true)
            humans)
unfolding start all_agreed cast_all
vote_agreed_iff r [] votes fresh once =
    let e = cast_none votes in (λ h. ground arith, λ h. absurd (omega (arith, h.0)))
  where
    cast_none : (votes : List (ℕ × Bool)) → (cast_all no_vote votes).active ≡ false
    cast_none [] = refl
    cast_none ((id, b) ∷ votes) = cast_none votes
vote_agreed_iff r (v ∷ vs) votes fresh once =
    let e =
      ap
        (λ (es : List DismissVoteEntry).
          cast_all (record { active = true; requester_id = r; entries = es }) votes)
        (mark_requester-ballot r (v ∷ vs) fresh)
      ∙ cast_all-ballot (at_start r) r (v ∷ vs) votes once in
    let iff = all-ballot (said (at_start r) votes) (v ∷ vs) in
    (
      λ h. (
        omega arith,
        iff.0 (
            ground (
              arith,
              ap (λ (z : DismissVote). z.entries) e,
              ap (λ (z : DismissVote). z.active) e,
              h,
            )),
      ),
      λ h.
          rw
            (
              mark_requester-ballot r (v ∷ vs) fresh,
              cast_all-ballot (at_start r) r (v ∷ vs) votes once,
            )
            (iff.1 h.1),
    )
