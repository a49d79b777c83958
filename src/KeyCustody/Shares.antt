-- ===== src/KeyCustody/Shares.antt =====
-- The table of shares and services/key_shares.py. Fernet and base64 are parameters; what a write
-- read and what it then finds are two databases, as nothing but the conditional statements ties
-- them together.
use agience_origin.Base.{
  ℕ, Bool, false, not, ◌&&◌, ◌||◌, Option, none, some, List, [], ◌∷◌, ◌++◌, Text, ◌==◌, text_eq,
  nat_eq, leb, if◌then◌else◌, length, all, first, any, init, last?, update_where, count_where,
}

pub record KeyCustodyShare : Type 0 where
  pub principal_id : Text
  pub x : ℕ
  pub y_sealed : Text
  pub kcv : Text

pub record Share : Type 0 where
  pub x : ℕ
  pub y : Text
  pub kcv : Text

-- A share as a request brings it: a field of another type, and an x below 0, is none.
pub record Presented : Type 0 where
  pub x : Option ℕ
  pub y : Option Text
  pub kcv : Option Text

pub data Outcome : Type 0 where
  stored unchanged replaced share_rejected share_conflict : Outcome

pub data Release : Type 0 where
  absent unreadable : Release
  released : Share → Release

abbrev pub max_share_bytes : ℕ
max_share_bytes = 64

abbrev between : ℕ → ℕ → ℕ → Bool
between low high n = leb low n && leb n high

-- [A-Za-z0-9._:@-]
abbrev is_principal_char : ℕ → Bool
is_principal_char c =
    between 65 90 c
    || (between 97 122 c || (between 48 58 c || (c == 46 || (c == 95 || (c == 64 || c == 45)))))

-- [0-9a-f]
abbrev is_hex_char : ℕ → Bool
is_hex_char c = between 48 57 c || between 97 102 c

abbrev is_run : (ℕ → Bool) → ℕ → ℕ → Text → Bool
is_run p low high s = all p s && between low high (length s)

abbrev ends_line : Text → Bool
ends_line s = elim (last? s) [ none ↦ false | some c ↦ c == 10 ]

-- `^[…]{low,high}$` under re.match: `$` also matches before a newline at the end.
abbrev pub matches_run : (ℕ → Bool) → ℕ → ℕ → Text → Bool
matches_run p low high s = is_run p low high s || ends_line s && is_run p low high (init s)

unfoldable pub valid_principal : Text → Bool
valid_principal principal_id = matches_run is_principal_char 1 128 principal_id

abbrev pub valid_kcv : Text → Bool
valid_kcv kcv = matches_run is_hex_char 32 32 kcv

abbrev pub is_row : Text → KeyCustodyShare → Bool
is_row principal_id r = r.principal_id == principal_id

unfoldable pub read : List KeyCustodyShare → Text → Option KeyCustodyShare
read rows principal_id = first (is_row principal_id) rows

abbrev pub share_beq : Share → Share → Bool
share_beq s t = s.x == t.x && (s.y == t.y && s.kcv == t.kcv)

abbrev pub names : Option Text → Text → Bool
names none kcv = false
names (some s) kcv = kcv == s

-- The insert, which the primary key refuses when a row is there.
unfoldable pub insert_share :
    List KeyCustodyShare → Text → Share → Text → List KeyCustodyShare × Outcome
insert_share rows principal_id new sealed =
    if any (is_row principal_id) rows then (rows, share_conflict) else (
      rows
          ++ record { principal_id = principal_id; x = new.x; y_sealed = sealed; kcv = new.kcv }
            ∷ [],
      stored,
    )

abbrev pub is_unmoved : KeyCustodyShare → KeyCustodyShare → Bool
is_unmoved row r = is_row row.principal_id r && (r.kcv == row.kcv && r.y_sealed == row.y_sealed)

abbrev pub rewritten : Share → Text → KeyCustodyShare → KeyCustodyShare
rewritten new sealed r = record r { x = new.x; y_sealed = sealed; kcv = new.kcv }

-- base64.b64decode with validation
module _ (b64decode : Text → Option Text) where
  abbrev valid_y : Text → Bool
  valid_y y = elim (b64decode y) [
    | none ↦ false
    | some raw ↦ between 1 max_share_bytes (length raw)
  ]

  abbrev pub validate_fields : Option ℕ → Option Text → Option Text → Option Share
  validate_fields (some x) (some y) (some kcv) =
      if between 1 255 x && (valid_y y && valid_kcv kcv)
      then some (record { x = x; y = y; kcv = kcv })
      else none
  validate_fields _ _ _ = none

  unfoldable pub validate : Presented → Option Share
  validate share = validate_fields share.x share.y share.kcv

-- Fernet.decrypt under Origin's key
module _ (decrypt : Text → Option Text) where
  abbrev pub open_row : KeyCustodyShare → Option Share
  open_row r = elim (decrypt r.y_sealed) [
    | none ↦ none
    | some y ↦ some (record { x = r.x; y = y; kcv = r.kcv })
  ]

  abbrev pub release_row : Option KeyCustodyShare → Release
  release_row none = absent
  release_row (some r) = elim (open_row r) [ none ↦ unreadable | some share ↦ released share ]

  unfoldable pub release_share : List KeyCustodyShare → Text → Release
  release_share rows principal_id = release_row (read rows principal_id)

  abbrev pub is_same_share : KeyCustodyShare → Share → Bool
  is_same_share row new = elim (open_row row) [ none ↦ false | some share ↦ share_beq share new ]

  -- The update, which holds only if the row is still what was read.
  unfoldable pub replace_share :
      List KeyCustodyShare
      → KeyCustodyShare
      → Share
      → Text
      → Option Text
      → List KeyCustodyShare × Outcome
  replace_share rows row new sealed supersedes =
      if is_same_share row new
      then (rows, unchanged)
      else if not (row.kcv == new.kcv) && not (names supersedes row.kcv)
      then (rows, share_conflict)
      else if not (count_where (is_unmoved row) rows == 1)
      then (rows, share_conflict)
      else (update_where (is_unmoved row) (rewritten new sealed) rows, replaced)

  -- The write of a valid share after `row` was read.
  unfoldable pub write_share :
      List KeyCustodyShare
      → Option KeyCustodyShare
      → Text
      → Share
      → Text
      → Option Text
      → List KeyCustodyShare × Outcome
  write_share rows none principal_id new sealed supersedes =
      insert_share rows principal_id new sealed
  write_share rows (some row) principal_id new sealed supersedes =
      replace_share rows row new sealed supersedes

module _ (b64decode decrypt : Text → Option Text) where
  abbrev pub store_valid :
      List KeyCustodyShare
      → Text
      → Option Share
      → (Text → Text)
      → Option Text
      → List KeyCustodyShare × Outcome
  store_valid rows principal_id none encrypt supersedes = (rows, share_rejected)
  store_valid rows principal_id (some new) encrypt supersedes =
      write_share decrypt rows (read rows principal_id) principal_id new (encrypt new.y) supersedes

  unfoldable pub store_share :
      List KeyCustodyShare
      → Text
      → Presented
      → (Text → Text)
      → Option Text
      → List KeyCustodyShare × Outcome
  store_share rows principal_id share encrypt supersedes =
      if not (valid_principal principal_id)
      then (rows, share_rejected)
      else store_valid rows principal_id (validate b64decode share) encrypt supersedes
