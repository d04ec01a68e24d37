-- ===== src/Auth/Tokens/Issued.antt =====
-- Which tokens are good after a login.
use text.Mathlib.Text.{◌==◌ as str_eq}
use gd_server.Auth.Tokens.{
  TokenEntry, TokenManager, issue_token, k_token_ttl_days, revoke_all_for_user, validate_token,
}
use gd_server.Base.{
  Bool-cases, Option-cases, String, [], ap, arith, false, find_text, find_text-put_text_ne,
  find_text-put_text_self, if◌then◌else◌, inl, inr, ltb, none, put_text, refl, some, sym, ℕ, ◌*◌,
  ◌+◌, ◌∙◌, ◌∷◌, ◌≡◌, ◌≢◌,
}

-- No user is left with a token that belongs to the user who has been revoked.

revoked-find :
    (m : TokenManager) (user_id : ℕ) (t : String) (e : TokenEntry)
    → find_text (revoke_all_for_user m user_id) t ≡ some e
    → e.user_id ≢ user_id
unfolding revoke_all_for_user
revoked-find [] user_id t e h = absurd (cc h)
revoked-find ((k, d) ∷ m) user_id t e h = ground (arith, revoked-find m user_id t e)

revoked-keeps :
    (m : TokenManager) (user_id : ℕ) (t : String) (e : TokenEntry)
    → find_text m t ≡ some e
    → e.user_id ≢ user_id
    → find_text (revoke_all_for_user m user_id) t ≡ some e
unfolding revoke_all_for_user
revoked-keeps [] user_id t e h ne = absurd (cc h)
revoked-keeps ((k, d) ∷ m) user_id t e h ne = ground (arith, revoked-keeps m user_id t e)

-- What makes a token good for a user.
record IsGood (m : TokenManager) (now : ℕ) (t : String) (user_id : ℕ) : Type 0 where
  entry : TokenEntry
  at_token : find_text m t ≡ some entry
  fresh : ltb entry.expires_at now ≡ false
  owner : entry.user_id ≡ user_id

validate-IsGood :
    (m : TokenManager) (now user_id : ℕ) (t : String)
    → (validate_token m now t).1 ≡ some user_id
    → IsGood m now t user_id
unfolding validate_token
validate-IsGood m now user_id t h = elim (Bool-cases (str_eq t "")) [
  | inl blank ↦ absurd (cc (rw blank at h))
  | inr named ↦
      let g = rw named at h in
      elim (Option-cases (find_text m t)) [
        | inl gone ↦ let g' = rw gone at g in absurd (cc g')
        | inr (e, there) ↦
            let g' = rw there at g in
            record { entry = e; at_token = there; fresh = ground arith; owner = ground arith }
      ]
]

good-validate :
    (m : TokenManager) (now user_id : ℕ) (t : String)
    → str_eq t "" ≡ false
    → IsGood m now t user_id
    → (validate_token m now t).1 ≡ some user_id
unfolding validate_token
good-validate m now user_id t named g = rw (named, g.at_token, g.fresh) (ap some g.owner)

named_of :
    (m : TokenManager) (now user_id : ℕ) (t : String)
    → (validate_token m now t).1 ≡ some user_id
    → str_eq t "" ≡ false
unfolding validate_token
named_of m now user_id t h = elim (Bool-cases (str_eq t "")) [
  | inl blank ↦ let g = rw blank at h in absurd (cc g)
  | inr named ↦ named
]

validate_at :
    (m : TokenManager) (now : ℕ) (t : String) (e : TokenEntry)
    → str_eq t "" ≡ false
    → find_text m t ≡ some e
    → (validate_token m now t).1 ≡ (if ltb e.expires_at now then none else some e.user_id)
unfolding validate_token
validate_at m now t e named there = elim (Bool-cases (ltb e.expires_at now)) [
  | inl old ↦ rw (validate_token, named, there, old) refl
  | inr fresh ↦ rw (validate_token, named, there, fresh) refl
]

-- After a login with a drawn token that is not empty, that token is good for the user for 30 days
-- and no longer. No other token is good for the user any more, and the tokens of all other users
-- are as good as before, save one that is drawn again.
pub issue_token_total :
    (m : TokenManager) (token : String) (now user_id later : ℕ)
    → str_eq token "" ≡ false
    → ((validate_token (issue_token m token now user_id).0 later token).1
        ≡ (if ltb (now + 24 * k_token_ttl_days) later then none else some user_id))
      × ((t : String)
          → token ≢ t
          → (validate_token (issue_token m token now user_id).0 later t).1 ≢ some user_id)
      × ((t : String) (other : ℕ)
          → token ≢ t
          → other ≢ user_id
          → (validate_token m later t).1 ≡ some other
          → (validate_token (issue_token m token now user_id).0 later t).1 ≡ some other)
unfolding issue_token
issue_token_total m token now user_id later named =
    let left = revoke_all_for_user m user_id in
    let entry : TokenEntry = record {
      user_id = user_id;
      expires_at = now + 24 * k_token_ttl_days;
    } in
    (
      validate_at (put_text left token entry) later token entry named
          (find_text-put_text_self left token entry),
      λ t ne h.
          let g = validate-IsGood (put_text left token entry) later user_id t h in
          revoked-find m user_id t g.entry
            (sym (find_text-put_text_ne left token t entry ne) ∙ g.at_token) g.owner,
      λ t other ne apart h.
          let g = validate-IsGood m later other t h in
          good-validate (put_text left token entry) later other t (named_of m later other t h)
            record {
              entry = g.entry;
              at_token =
                  find_text-put_text_ne left token t entry ne
                  ∙ revoked-keeps m user_id t g.entry g.at_token (λ e. apart (sym g.owner ∙ e));
              fresh = g.fresh;
              owner = g.owner;
            },
    )
