-- ===== src/KeyCustody/Tokens.antt =====
-- `spend_token` of services/key_shares.py over the table of nonces, in seconds: a token is accepted
-- once.
use agience_origin.Base.{
  ℕ, ◌+◌, ◌≤◌, ◌≡◌, refl, Bool, true, false, ◌&&◌, List, [], ◌∷◌, ◌++◌, Text, ◌==◌, text_eq, nat_eq,
  eq_iff, eq_refl, arith, ltb, if◌then◌else◌, if-branches, any, All, delete_where,
}

pub record KeyCustodyNonce : Type 0 where
  pub jti : Text
  pub expires_at : ℕ

abbrev pub is_past : ℕ → KeyCustodyNonce → Bool
is_past now n = ltb (n.expires_at + 5) now

abbrev pub is_jti : Text → KeyCustodyNonce → Bool
is_jti jti n = n.jti == jti

-- The primary key refuses a second row, and the deletion is rolled back with it.
unfoldable pub spend_token : List KeyCustodyNonce → Text → ℕ → ℕ → List KeyCustodyNonce × Bool
spend_token nonces jti expires_at now =
    let live = delete_where (is_past now) nonces in
    if any (is_jti jti) live
    then (nonces, false)
    else (live ++ record { jti = jti; expires_at = expires_at } ∷ [], true)

-- A token, its expiry and the time at which it is presented.
pub record Presentation : Type 0 where
  pub jti : Text
  pub expires_at : ℕ
  pub now : ℕ

unfoldable pub spend_all : List KeyCustodyNonce → List Presentation → List KeyCustodyNonce
spend_all nonces [] = nonces
spend_all nonces (c ∷ cs) = spend_all (spend_token nonces c.jti c.expires_at c.now).0 cs

module _ (jti : Text) (expires_at : ℕ) where
  abbrev is_spent : KeyCustodyNonce → Bool
  is_spent n = n.jti == jti && n.expires_at == expires_at

  live_spent :
      (now : ℕ) (ns : List KeyCustodyNonce)
      → now ≤ expires_at + 5
      → any is_spent ns ≡ true
      → any is_spent (delete_where (is_past now) ns) ≡ true
  live_spent now [] h k = k
  live_spent now (n ∷ ns) h k = ground (arith, live_spent now ns h, eq_iff n.expires_at expires_at)

  added_spent :
      (ns ms : List KeyCustodyNonce) → any is_spent ns ≡ true → any is_spent (ns ++ ms) ≡ true
  added_spent [] ms k = absurd (ground arith)
  added_spent (n ∷ ns) ms k = ground (arith, added_spent ns ms)

  found_spent : (ns : List KeyCustodyNonce) → any is_spent ns ≡ true → any (is_jti jti) ns ≡ true
  found_spent [] k = k
  found_spent (n ∷ ns) k = ground (arith, found_spent ns)

  last_spent :
      (ns : List KeyCustodyNonce)
      → any is_spent (ns ++ record { jti = jti; expires_at = expires_at } ∷ []) ≡ true
  last_spent [] = ground (arith, eq_refl jti, eq_refl expires_at)
  last_spent (n ∷ ns) = ground (arith, last_spent ns)

  step_spent :
      (ns : List KeyCustodyNonce) (other : Text) (other_expires now : ℕ)
      → now ≤ expires_at + 5
      → any is_spent ns ≡ true
      → any is_spent (spend_token ns other other_expires now).0 ≡ true
  unfolding spend_token
  step_spent ns other other_expires now h k =
      if-branches (λ (r : List KeyCustodyNonce × Bool). any is_spent r.0 ≡ true)
        (any (is_jti other) (delete_where (is_past now) ns)) (λ _. k)
        (λ _. added_spent (delete_where (is_past now) ns) _ (live_spent now ns h k))

  All-spent :
      (ns : List KeyCustodyNonce) (cs : List Presentation)
      → All (λ c. c.now ≤ expires_at + 5) cs
      → any is_spent ns ≡ true
      → any is_spent (spend_all ns cs) ≡ true
  unfolding spend_all
  All-spent ns [] h k = k
  All-spent ns (c ∷ cs) h k =
      All-spent (spend_token ns c.jti c.expires_at c.now).0 cs h.1
        (step_spent ns c.jti c.expires_at c.now h.0 k)

  first_spent :
      (ns : List KeyCustodyNonce) (now : ℕ)
      → (spend_token ns jti expires_at now).1 ≡ true
      → any is_spent (spend_token ns jti expires_at now).0 ≡ true
  unfolding spend_token
  first_spent ns now =
      if-branches (λ (r : List KeyCustodyNonce × Bool). r.1 ≡ true → any is_spent r.0 ≡ true)
        (any (is_jti jti) (delete_where (is_past now) ns)) (λ _ h. absurd (cc))
        (λ _ h. last_spent (delete_where (is_past now) ns))

  again_spent :
      (ns : List KeyCustodyNonce) (later_expires now : ℕ)
      → now ≤ expires_at + 5
      → any is_spent ns ≡ true
      → (spend_token ns jti later_expires now).1 ≡ false
  unfolding spend_token
  again_spent ns later_expires now h k =
      rw (found_spent (delete_where (is_past now) ns) (live_spent now ns h k)) refl

  -- A token that was accepted once is not accepted again until five seconds after it expires,
  -- whatever other tokens are presented in between at times that are not later than that.
  pub spend_token_once :
      (ns : List KeyCustodyNonce) (now : ℕ) (cs : List Presentation) (later_expires later : ℕ)
      → (spend_token ns jti expires_at now).1 ≡ true
      → All (λ c. c.now ≤ expires_at + 5) cs
      → later ≤ expires_at + 5
      → (spend_token (spend_all (spend_token ns jti expires_at now).0 cs) jti later_expires later).1
        ≡ false
  spend_token_once ns now cs later_expires later won between_times h =
      again_spent (spend_all (spend_token ns jti expires_at now).0 cs) later_expires later h
        (All-spent (spend_token ns jti expires_at now).0 cs between_times (first_spent ns now won))
