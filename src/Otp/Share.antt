-- ===== src/Otp/Share.antt =====
-- What the rows of an address can still cost it, and that no step raises the sum past the budget.
use agience_origin.Base.{
  ℕ, ◌+◌, ◌-◌, ◌≤◌, ◌≡◌, refl, inl, inr, true, false, ◌&&◌, some, List, [], ◌∷◌, Text, nat_eq,
  arith, if◌then◌else◌, nocase, nocase_left, Bool-cases, Option-cases, All, update_where,
  count_where, sum_of, sum_of-append, count_where-append, sum_of-update_le, sum_of-update_eq,
  sum_of_mono, sum_of-delete_le, sum_of-delete_eq, sum_of-update_gain, All-map, All-append,
  update_where-All, delete_where-All, In,
}
use agience_origin.Otp.Codes.{
  OtpCode, Store, is_live, create, get_latest_valid_for_email, miss_share, count_recent_misses,
  is_superseded, mark_used, supersede_live_for_email, is_claimable, add_attempt, claim_attempt,
  is_usable, claim_use, is_stale, delete_expired,
}
use agience_origin.Otp.Latest.{latest-In}
use agience_origin.Otp.Service.{
  expiry, issue_window, max_attempts_per_code, max_draws_per_window, limit_reached, issue_commit,
  claim_found, verify_claim,
}
use agience_origin.Otp.History.{guessed, is_recent}

-- What a row can still cost the address: the attempts taken, if it is recent, and those that are
-- left while it is live.
abbrev pub left_share : Text → ℕ → OtpCode → ℕ
left_share email t r =
    if nocase r.email email && is_live max_attempts_per_code t r
    then max_attempts_per_code - r.attempts
    else 0

abbrev pub share : Text → ℕ → OtpCode → ℕ
share email t r = miss_share email issue_window t r + left_share email t r

pub record Inv (s : Store) (log : List OtpCode) (now : ℕ) : Type 0 where
  pub bounded : (email : Text) → sum_of (share email now) s.codes ≤ max_draws_per_window
  pub counted :
      (email : Text) (t : ℕ)
      → now ≤ t
      → count_where (is_recent email issue_window t) log
        ≤ sum_of (miss_share email issue_window t) s.codes
  pub aged : All (λ r. r.expires_at ≡ r.created_time + expiry) s.codes

share-later :
    (email : Text) (now t : ℕ) (r : OtpCode) → now ≤ t → share email t r ≤ share email now r
share-later email now t r h = ground arith

pub later : {s : Store} {log : List OtpCode} {now t : ℕ} → now ≤ t → Inv s log now → Inv s log t
later {s} {log} {now} {t} h v = record {
  bounded = λ email. omega (
    arith,
    sum_of_mono (share email t) (share email now) s.codes (λ r. share-later email now t r h),
    v.bounded email,
  );
  counted = λ email u g. v.counted email u (omega arith);
  aged = v.aged;
}

guess_share-le :
    (email : Text) (now otp_id : ℕ) (r : OtpCode)
    → is_claimable otp_id max_attempts_per_code now r ≡ true
    → share email now (add_attempt r) ≤ share email now r
guess_share-le email now otp_id r e = ground arith

used_share-le : (email : Text) (t : ℕ) (r : OtpCode) → share email t (mark_used r) ≤ share email t r
used_share-le email t r = ground arith

miss_share-grows :
    (email : Text) (t : ℕ) (r : OtpCode)
    → miss_share email issue_window t r ≤ miss_share email issue_window t (add_attempt r)
miss_share-grows email t r = ground arith

claim-Inv :
    (s : Store) (log : List OtpCode) (otp : OtpCode) (now : ℕ)
    → In otp s.codes
    → is_live max_attempts_per_code now otp ≡ true
    → Inv s log now
    → Inv (claim_found s (some otp) now).0 (guessed log (claim_found s (some otp) now).1) now
unfolding claim_attempt
claim-Inv s log otp now m live v = record {
  bounded = λ email. ground (
    arith,
    sum_of-update_le (share email now) (is_claimable otp.id max_attempts_per_code now) add_attempt
        s.codes (λ r e. guess_share-le email now otp.id r e),
    v.bounded email,
  );
  counted = λ email t h. ground (
    arith,
    sum_of-update_gain (miss_share email issue_window t)
        (is_claimable otp.id max_attempts_per_code now) add_attempt otp
        (if is_recent email issue_window t otp then 1 else 0) s.codes (miss_share-grows email t)
        (ground arith) (ground arith) m,
    count_where-append (is_recent email issue_window t) log (otp ∷ []),
    v.counted email t h,
  );
  aged =
      update_where-All _ (is_claimable otp.id max_attempts_per_code now) add_attempt s.codes
        (λ r e a. a) v.aged;
}

pub guess-Inv :
    (s : Store) (log : List OtpCode) (email : Text) (now : ℕ)
    → Inv s log now
    → Inv (verify_claim s email now).0 (guessed log (verify_claim s email now).1) now
unfolding verify_claim
guess-Inv s log email now v =
    elim (Option-cases (get_latest_valid_for_email s email max_attempts_per_code now)) [
      | inl e ↦ rw (e, claim_found) v
      | inr (otp, e) ↦
          let (m, valid) = latest-In s email max_attempts_per_code now otp e in
          rw e (claim-Inv s log otp now m (ground arith) v)
    ]

pub use-Inv :
    (s : Store) (log : List OtpCode) (otp_id now : ℕ)
    → Inv s log now
    → Inv (claim_use s otp_id).0 log now
unfolding claim_use
use-Inv s log otp_id now v = record {
  bounded = λ email. omega (
    arith,
    sum_of-update_le (share email now) (is_usable otp_id) mark_used s.codes
        (λ r e. used_share-le email now r),
    v.bounded email,
  );
  counted = λ email t h. omega (
    arith,
    sum_of-update_eq (miss_share email issue_window t) (is_usable otp_id) mark_used s.codes
        (λ r e. refl),
    v.counted email t h,
  );
  aged = update_where-All _ (is_usable otp_id) mark_used s.codes (λ r e a. a) v.aged;
}

-- A row that is deleted is too old to be recent.
stale_share :
    (email : Text) (now t : ℕ) (r : OtpCode)
    → now ≤ t
    → r.expires_at ≡ r.created_time + expiry
    → is_stale now r ≡ true
    → miss_share email issue_window t r ≡ 0
stale_share email now t r h a e = ground arith

pub cleanup-Inv :
    (s : Store) (log : List OtpCode) (now : ℕ)
    → Inv s log now
    → Inv (delete_expired s now).0 log now
unfolding delete_expired
cleanup-Inv s log now v = record {
  bounded = λ email.
      omega (arith, sum_of-delete_le (share email now) (is_stale now) s.codes, v.bounded email);
  counted = λ email t h. omega (
    arith,
    sum_of-delete_eq (miss_share email issue_window t) (is_stale now) s.codes
        (All-map _ _ s.codes (λ r a e. stale_share email now t r h a e) v.aged),
    v.counted email t h,
  );
  aged = delete_where-All _ (is_stale now) s.codes v.aged;
}

-- Once the live codes of an address are superseded, none of its rows has attempts left.
superseded_share :
    (email other : Text) (now : ℕ) (r : OtpCode)
    → nocase email other ≡ true
    → share other now (if is_superseded email now r then mark_used r else r)
      ≤ miss_share email issue_window now r
superseded_share email other now r same = ground (arith, nocase_left email other r.email same)

sum_of-superseded :
    (email other : Text) (now : ℕ) (rs : List OtpCode)
    → nocase email other ≡ true
    → sum_of (share other now) (update_where (is_superseded email now) mark_used rs)
      ≤ sum_of (miss_share email issue_window now) rs
sum_of-superseded email other now [] same = omega arith
sum_of-superseded email other now (r ∷ rs) same =
    omega
      (arith, superseded_share email other now r same, sum_of-superseded email other now rs same)

module _ (s : Store) (log : List OtpCode) (email hash : Text) (now : ℕ) (v : Inv s log now) where
  abbrev superseded : List OtpCode
  superseded = update_where (is_superseded email now) mark_used s.codes

  abbrev new_code : OtpCode
  new_code = record {
    id = s.next_id;
    email = email;
    code_hash = hash;
    expires_at = now + expiry;
    attempts = 0;
    used = false;
    created_time = now;
  }

  recorded-Inv :
      limit_reached s email now ≡ false
      → Inv (create (supersede_live_for_email s email now).0 email hash (now + expiry) now) log now
  unfolding limit_reached count_recent_misses create supersede_live_for_email
  recorded-Inv free = record {
    bounded = λ other. elim (Bool-cases (nocase email other)) [
      | inl same ↦
          rw (sum_of-append (share other now) superseded (new_code ∷ []))
            (ground (arith, sum_of-superseded email other now s.codes same))
      | inr differs ↦ rw (sum_of-append (share other now) superseded (new_code ∷ [])) (
          ground (
            arith,
            sum_of-update_le (share other now) (is_superseded email now) mark_used s.codes
                (λ r e. used_share-le other now r),
            v.bounded other,
          ))
    ];
    counted = λ other t h.
        rw (sum_of-append (miss_share other issue_window t) superseded (new_code ∷ [])) (
          omega (
            arith,
            sum_of-update_eq (miss_share other issue_window t) (is_superseded email now) mark_used
                s.codes (λ r e. refl),
            v.counted other t h,
          ));
    aged =
        All-append _ superseded (new_code ∷ [])
          (update_where-All _ (is_superseded email now) mark_used s.codes (λ r e a. a) v.aged)
          (refl, tt);
  }

  pub issue-Inv : Inv (issue_commit s email hash now).0 log now
  unfolding issue_commit
  issue-Inv = elim (Bool-cases (limit_reached s email now)) [
    | inl full ↦ rw full v
    | inr free ↦ rw free (recorded-Inv free)
  ]
