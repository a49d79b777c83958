-- ===== src/Otp/Verify.antt =====
-- `verify_otp`: what a success rests on, and that an issued code verifies.
use agience_origin.Base.{
  ℕ, ◌+◌, ◌≤◌, ◌<◌, ◌≡◌, refl, Bool, true, false, Option, none, some, Text, nat_eq, arith,
  nocase_refl, normalize, update_where, count_where-append, count_where_zero, select_where-append,
  select_where_none, All-update_where, update_where-All, All-map, In, update_where-append,
}
use agience_origin.Otp.Codes.{
  OtpCode, Store, is_valid, is_superseded, mark_used, is_claimable, add_attempt, is_usable, create,
  supersede_live_for_email, claim_attempt, claim_use, get_latest_valid_for_email,
}
use agience_origin.Otp.Latest.{latest-In}
use agience_origin.Otp.Service.{
  expiry, max_attempts_per_code, issue_commit, issue_otp, claim_found, verify_claim, verify_finish,
  verify_otp,
}
use agience_origin.Otp.Single.{Numbered}

module _ (compare_hash : Text → Text → Bool) (sign_in : Text → Option Text) where
  finish_success :
      (s : Store) (o : Option OtpCode) (email code person : Text)
      → (verify_finish compare_hash sign_in s o email code).1 ≡ some person
      → (otp : OtpCode) × (o ≡ some otp)
        × (compare_hash code otp.code_hash ≡ true)
        × ((claim_use s otp.id).1 ≡ true)
        × (sign_in email ≡ some person)
  unfolding verify_finish
  finish_success s none email code person h = absurd (cc)
  finish_success s (some otp) email code person h =
      (otp, refl, ground arith, ground arith, ground arith)

  claim_found-some :
      (s : Store) (o : Option OtpCode) (now : ℕ) (otp : OtpCode)
      → (claim_found s o now).1 ≡ some otp
      → o ≡ some otp
  claim_found-some s none now otp h = absurd (cc)
  claim_found-some s (some r) now otp h = ground arith

  -- A verification that signs a person in was of a code that stood in the table, was issued to that
  -- address, was live with attempts left, and matches what was typed; and the person is the one
  -- whom the normalized address signs in.
  pub verify_otp_sound :
      (s : Store) (email code : Text) (now : ℕ) (person : Text)
      → (verify_otp compare_hash sign_in s email code now).1 ≡ some person
      → (otp : OtpCode) × In otp s.codes
        × (is_valid (normalize email) max_attempts_per_code now otp ≡ true)
        × (compare_hash code otp.code_hash ≡ true)
        × (sign_in (normalize email) ≡ some person)
  unfolding verify_otp verify_claim
  verify_otp_sound s email code now person h =
      let o = get_latest_valid_for_email s (normalize email) max_attempts_per_code now in
      let (otp, claimed, matches, _, signed) =
        finish_success (claim_found s o now).0 (claim_found s o now).1 (normalize email) code person
          h in
      let (m, valid) =
        latest-In s (normalize email) max_attempts_per_code now otp
          (claim_found-some s o now otp claimed) in
      (otp, m, valid, matches, signed)

abbrev new_code : Store → Text → Text → ℕ → OtpCode
new_code s email hash now = record {
  id = s.next_id;
  email = email;
  code_hash = hash;
  expires_at = now + expiry;
  attempts = 0;
  used = false;
  created_time = now;
}

abbrev recorded : Store → Text → Text → ℕ → Store
recorded s email hash now =
    create (supersede_live_for_email s email now).0 email hash (now + expiry) now

-- A code just recorded is the only live one of its address, until it expires.
module _ (s : Store) (email hash : Text) (now t : ℕ) (after : now ≤ t) where
  latest-recorded :
      t < now + expiry
      → get_latest_valid_for_email (recorded s email hash now) email max_attempts_per_code t
        ≡ some (new_code s email hash now)
  unfolding create supersede_live_for_email get_latest_valid_for_email
  latest-recorded fresh =
      rw
        (
          select_where-append (is_valid email max_attempts_per_code t)
              (update_where (is_superseded email now) mark_used s.codes),
          select_where_none (is_valid email max_attempts_per_code t)
              (update_where (is_superseded email now) mark_used s.codes)
              (All-update_where _ (is_superseded email now) mark_used s.codes (λ r. ground arith)),
        )
        (ground (arith, nocase_refl email))

  claim-recorded :
      Numbered s
      → t < now + expiry
      → (claim_attempt (recorded s email hash now) s.next_id max_attempts_per_code t).1 ≡ true
  unfolding create supersede_live_for_email claim_attempt
  claim-recorded v fresh =
      rw
        (count_where-append (is_claimable s.next_id max_attempts_per_code t)
          (update_where (is_superseded email now) mark_used s.codes))
        (ground (
          arith,
          count_where_zero (is_claimable s.next_id max_attempts_per_code t)
              (update_where (is_superseded email now) mark_used s.codes)
              (All-map _ _ _ (λ r k. ground (arith, k))
                (update_where-All (λ r. r.id < s.next_id) (is_superseded email now) mark_used
                  s.codes (λ r e k. k) v)),
        ))

  use-recorded :
      Numbered s
      → (claim_use
          (claim_attempt (recorded s email hash now) s.next_id max_attempts_per_code t).0
          s.next_id).1
        ≡ true
  unfolding create supersede_live_for_email claim_attempt claim_use
  use-recorded v =
      let olds = update_where (is_superseded email now) mark_used s.codes in
      let claim = is_claimable s.next_id max_attempts_per_code t in
      rw
        (
          update_where-append claim add_attempt olds,
          count_where-append (is_usable s.next_id) (update_where claim add_attempt olds),
        )
        (ground (
          arith,
          count_where_zero (is_usable s.next_id) (update_where claim add_attempt olds) (
              All-map _ _ _ (λ r k. ground (arith, k))
                (update_where-All (λ r. r.id < s.next_id) claim add_attempt olds (λ r e k. k)
                  (update_where-All (λ r. r.id < s.next_id) (is_superseded email now) mark_used
                    s.codes (λ r e k. k) v))),
        ))

module _ (compare_hash : Text → Text → Bool) (sign_in : Text → Option Text) where
  verify-recorded :
      (s : Store) (email hash code : Text) (now t : ℕ) (person : Text)
      → Numbered s
      → now ≤ t
      → t < now + expiry
      → compare_hash code hash ≡ true
      → sign_in (normalize email) ≡ some person
      → (verify_otp compare_hash sign_in (recorded s (normalize email) hash now) email code t).1
        ≡ some person
  unfolding verify_otp verify_claim verify_finish
  verify-recorded s email hash code now t person v after fresh matches signed = ground (
    arith,
    latest-recorded s (normalize email) hash now t after fresh,
    claim-recorded s (normalize email) hash now t after v fresh,
    use-recorded s (normalize email) hash now t after v,
  )

  -- The round trip: a code that `issue_otp` sent out, typed for the address before it expires and
  -- with no other request in between, signs in the person of the address, provided that bcrypt
  -- accepts the code for its hash and the person is not refused.
  pub issued_code_verifies :
      (first : Store) (started : ℕ) (s s' : Store) (email hash code : Text) (now t : ℕ)
      (person : Text)
      → Numbered s
      → issue_otp first started s now email hash ≡ (s', true)
      → now ≤ t
      → t < now + expiry
      → compare_hash code hash ≡ true
      → sign_in (normalize email) ≡ some person
      → (verify_otp compare_hash sign_in s' email code t).1 ≡ some person
  unfolding issue_otp issue_commit
  issued_code_verifies first started s s' email hash code now t person v sent after fresh matches
        signed =
      let e : s' ≡ recorded s (normalize email) hash now = ground arith in
      rw e (verify-recorded s email hash code now t person v after fresh matches signed)
