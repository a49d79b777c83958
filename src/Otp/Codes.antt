-- ===== src/Otp/Codes.antt =====
-- db/otp_codes.py and models/otp_code.py: the table of codes and the statements over it. Times are
-- in microseconds; a row's id, a fresh uuid in the source, is the number of rows inserted so far.
use agience_origin.Base.{
  ℕ, suc, ◌+◌, ◌*◌, Bool, true, false, not, ◌&&◌, Option, none, some, List, [], ◌∷◌, ◌++◌, Text,
  ◌==◌, nat_eq, ltb, leb, if◌then◌else◌, nocase, update_where, delete_where, select_where,
  count_where, sum_of,
}

pub record OtpCode : Type 0 where
  pub id : ℕ
  pub email : Text
  pub code_hash : Text
  pub expires_at : ℕ
  pub attempts : ℕ
  pub used : Bool
  pub created_time : ℕ

pub record Store : Type 0 where
  pub codes : List OtpCode
  pub next_id : ℕ

abbrev pub empty : Store
empty = record { codes = []; next_id = 0 }

abbrev pub minutes : ℕ → ℕ
minutes n = n * 60000000

abbrev pub one_day : ℕ
one_day = minutes 1440

-- The conditions of the statements. The address is compared under NOCASE.
abbrev pub is_unexpired : ℕ → OtpCode → Bool
is_unexpired now r = ltb now r.expires_at

abbrev pub is_live : ℕ → ℕ → OtpCode → Bool
is_live max_attempts now r = is_unexpired now r && (not r.used && ltb r.attempts max_attempts)

abbrev pub is_valid : Text → ℕ → ℕ → OtpCode → Bool
is_valid email max_attempts now r = nocase r.email email && is_live max_attempts now r

unfoldable pub create : Store → Text → Text → ℕ → ℕ → Store
create s email code_hash expires_at now = record {
  codes =
      s.codes
      ++ record {
        id = s.next_id;
        email = email;
        code_hash = code_hash;
        expires_at = expires_at;
        attempts = 0;
        used = false;
        created_time = now;
      }
        ∷ [];
  next_id = suc s.next_id;
}

-- ORDER BY created_time DESC, of rows that are as old in table order
unfoldable pub insert_newest : OtpCode → List OtpCode → List OtpCode
insert_newest r [] = r ∷ []
insert_newest r (q ∷ rs) =
    if leb q.created_time r.created_time then r ∷ q ∷ rs else q ∷ insert_newest r rs

unfoldable pub newest_first : List OtpCode → List OtpCode
newest_first [] = []
newest_first (r ∷ rs) = insert_newest r (newest_first rs)

abbrev pub head? : List OtpCode → Option OtpCode
head? [] = none
head? (r ∷ rs) = some r

unfoldable pub list_valid_for_email : Store → Text → ℕ → ℕ → List OtpCode
unfolding newest_first insert_newest
list_valid_for_email s email max_attempts now =
    newest_first (select_where (is_valid email max_attempts now) s.codes)

-- the same query with LIMIT 1
unfoldable pub get_latest_valid_for_email : Store → Text → ℕ → ℕ → Option OtpCode
unfolding newest_first insert_newest
get_latest_valid_for_email s email max_attempts now =
    head? (newest_first (select_where (is_valid email max_attempts now) s.codes))

-- `created_time >= now - window`, without the subtraction
abbrev pub miss_share : Text → ℕ → ℕ → OtpCode → ℕ
miss_share email window now r =
    if nocase r.email email && leb now (r.created_time + window) then r.attempts else 0

unfoldable pub count_recent_misses : Store → Text → ℕ → ℕ → ℕ
count_recent_misses s email window now = sum_of (miss_share email window now) s.codes

abbrev pub is_superseded : Text → ℕ → OtpCode → Bool
is_superseded email now r = nocase r.email email && (not r.used && is_unexpired now r)

abbrev pub mark_used : OtpCode → OtpCode
mark_used r = record r { used = true }

unfoldable pub supersede_live_for_email : Store → Text → ℕ → Store × ℕ
supersede_live_for_email s email now = (
  record s { codes = update_where (is_superseded email now) mark_used s.codes },
  count_where (is_superseded email now) s.codes,
)

abbrev pub is_claimable : ℕ → ℕ → ℕ → OtpCode → Bool
is_claimable otp_id max_attempts now r =
    r.id == otp_id && (not r.used && (ltb r.attempts max_attempts && is_unexpired now r))

abbrev pub add_attempt : OtpCode → OtpCode
add_attempt r = record r { attempts = r.attempts + 1 }

unfoldable pub claim_attempt : Store → ℕ → ℕ → ℕ → Store × Bool
claim_attempt s otp_id max_attempts now = (
  record s { codes = update_where (is_claimable otp_id max_attempts now) add_attempt s.codes },
  count_where (is_claimable otp_id max_attempts now) s.codes == 1,
)

abbrev pub is_usable : ℕ → OtpCode → Bool
is_usable otp_id r = r.id == otp_id && not r.used

unfoldable pub claim_use : Store → ℕ → Store × Bool
claim_use s otp_id = (
  record s { codes = update_where (is_usable otp_id) mark_used s.codes },
  count_where (is_usable otp_id) s.codes == 1,
)

-- `expires_at <= now - 1 day`, without the subtraction
abbrev pub is_stale : ℕ → OtpCode → Bool
is_stale now r = leb (r.expires_at + one_day) now

unfoldable pub delete_expired : Store → ℕ → Store × ℕ
delete_expired s now =
    (record s { codes = delete_where (is_stale now) s.codes }, count_where (is_stale now) s.codes)
