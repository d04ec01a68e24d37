-- ===== src/Auth/Users/Unique.antt =====
-- Accounts keep apart: no two have the same id, and no two the same name.
use text.Mathlib.Text.{◌==◌ as str_eq}
use text.Mathlib.TextEquality.{eq_iff}
use Prim.Native.String.{len}
use gd_server.Auth.Users.{
  Registration, UserRecord, UserStore, bad_nickname, find_by_id, find_by_nickname, first_named,
  first_with_id, new_user, nickname_taken, register_user, registered, trim,
}
use gd_server.Base.{
  Bool-cases, List, Option-cases, String, [], ap, arith, if◌then◌else◌, inl, inr, ltb, none, refl,
  some, subst, sym, true, ℕ, ◌++◌, ◌+◌, ◌<◌, ◌==◌, ◌||◌, ◌∙◌, ◌∷◌, ◌≡◌, ◌≤◌, ◌⊎◌,
}

-- The users found by an id or by a name are told apart by their place in the list.
pub record IsUnique (store : UserStore) : Type 0 where
  pub below : (id : ℕ) (u : UserRecord) → first_with_id store.users id ≡ some u → id < store.next_id
  pub named :
      (id : ℕ) (u : UserRecord)
      → first_with_id store.users id ≡ some u
      → first_named store.users u.nickname ≡ some u

first_with_id-append :
    (us : List UserRecord) (v : UserRecord) (id : ℕ)
    → ((u : UserRecord) → first_with_id us id ≡ some u → first_with_id (us ++ v ∷ []) id ≡ some u)
      × (first_with_id us id ≡ none
          → first_with_id (us ++ v ∷ []) id ≡ (if v.id == id then some v else none))
unfolding first_with_id
first_with_id-append [] v id = (λ u h. absurd (cc h), λ h. refl)
first_with_id-append (x ∷ us) v id = elim (Bool-cases (x.id == id)) [
  | inl mine ↦ (λ u h. ground arith, λ h. absurd (ground arith))
  | inr other ↦
      let (found, missing) = first_with_id-append us v id in
      (λ u h. ground (arith, found u), λ h. ground (arith, missing))
]

first_named-append :
    (us : List UserRecord) (v : UserRecord) (name : String)
    → ((u : UserRecord) → first_named us name ≡ some u → first_named (us ++ v ∷ []) name ≡ some u)
      × (first_named us name ≡ none
          → first_named (us ++ v ∷ []) name ≡ (if str_eq v.nickname name then some v else none))
unfolding first_named
first_named-append [] v name = (λ u h. absurd (cc h), λ h. refl)
first_named-append (x ∷ us) v name = elim (Bool-cases (str_eq x.nickname name)) [
  | inl mine ↦ (λ u h. ground arith, λ h. absurd (ground arith))
  | inr other ↦
      let (found, missing) = first_named-append us v name in
      (λ u h. ground (arith, found u), λ h. ground (arith, missing))
]

-- A user with the next id and a new name.
appended-IsUnique :
    (store : UserStore) (user : UserRecord)
    → IsUnique store
    → user.id ≡ store.next_id
    → first_named store.users user.nickname ≡ none
    → IsUnique (record { next_id = store.next_id + 1; users = store.users ++ user ∷ [] })
appended-IsUnique store user v id_new free = record {
  below = λ id u h. elim (Option-cases (first_with_id store.users id)) [
    | inr (w, there) ↦ omega (arith, v.below id w there)
    | inl off ↦ ground (arith, (first_with_id-append store.users user id).1 off)
  ];
  named = λ id u h. elim (Option-cases (first_with_id store.users id)) [
    | inr (w, there) ↦
        let e : w ≡ u =
          some_user ((sym ((first_with_id-append store.users user id).0 w there)) ∙ h) in
        (first_named-append store.users user u.nickname).0 u (v.named id u (there ∙ ap some e))
    | inl off ↦
        let g = sym ((first_with_id-append store.users user id).1 off) ∙ h in
        let e : user ≡ u = ground arith in
        subst (λ (x : UserRecord). first_named (store.users ++ user ∷ []) x.nickname ≡ some x) e
          (ground (
            arith,
            (first_named-append store.users user user.nickname).1 free,
            eq_iff user.nickname user.nickname,
          ))
  ];
}
  where
    some_user : {a b : UserRecord} → some a ≡ some b → a ≡ b
    some_user h = cc h

-- Why a name is refused, and the answer.
pub data NameRefused (store : UserStore) (nickname : String) : Registration → Type 0 where
  too_short : len (trim nickname) < 2 → NameRefused store nickname bad_nickname
  too_long : 16 < len (trim nickname) → NameRefused store nickname bad_nickname
  in_use :
      (u : UserRecord)
      → find_by_nickname store nickname ≡ some u
      → NameRefused store nickname nickname_taken

-- A registration is refused without effect, for a name that is too short or too long or that is
-- taken; or the new user has the next id and the trimmed name, is found by both, and everybody who
-- was found before is found as before. The ids and names of users stay apart.
pub register_user_total :
    (store : UserStore) (nickname password hash salt : String)
    → IsUnique store
    → let out = register_user store nickname password hash salt in
      IsUnique out.0
      × ((NameRefused store nickname out.1 × (out.0 ≡ store))
          ⊎ ((out.1 ≡ registered)
              × (2 ≤ len (trim nickname))
              × (len (trim nickname) ≤ 16)
              × (first_named store.users (trim nickname) ≡ none)
              × (find_by_nickname out.0 nickname
                  ≡ some (new_user store.next_id (trim nickname) password hash salt))
              × (find_by_id out.0 store.next_id
                  ≡ some (new_user store.next_id (trim nickname) password hash salt))
              × ((id : ℕ) (u : UserRecord)
                  → find_by_id store id ≡ some u
                  → find_by_id out.0 id ≡ some u)))
unfolding register_user find_by_nickname find_by_id
register_user_total store nickname password hash salt v =
    let nick = trim nickname in
    elim (Bool-cases (ltb (len nick) 2 || ltb 16 (len nick))) [
      | inl bad ↦ rw (register_user, bad) (v, inl (name_length bad, refl))
      | inr good ↦ elim (Option-cases (first_named store.users nick)) [
        | inr (u, taken) ↦ rw (register_user, good, taken) (v, inl (in_use u taken, refl))
        | inl free ↦
            let user = new_user store.next_id nick password hash salt in
            let by_name = first_named-append store.users user in
            let by_id = first_with_id-append store.users user in
            let new_id : first_with_id store.users store.next_id ≡ none =
              elim (Option-cases (first_with_id store.users store.next_id)) [
                | inl off ↦ off
                | inr (u, there) ↦ absurd (omega (arith, v.below store.next_id u there))
              ] in
            rw (register_user, good, free)
              (
                (appended-IsUnique store user v refl free),
                inr (
                  refl,
                  ground arith,
                  ground arith,
                  refl,
                  ground (arith, (by_name nick).1 free, eq_iff nick nick),
                  ground (arith, (by_id store.next_id).1 new_id),
                  λ id u h. (by_id id).0 u h,
                ),
              )
      ]
    ]
  where
    name_length :
        (ltb (len (trim nickname)) 2 || ltb 16 (len (trim nickname))) ≡ true
        → NameRefused store nickname bad_nickname
    name_length bad = elim (Bool-cases (ltb (len (trim nickname)) 2)) [
      | inl short ↦ too_short (ground (arith, short))
      | inr long_enough ↦ too_long (ground (arith, long_enough, bad))
    ]
