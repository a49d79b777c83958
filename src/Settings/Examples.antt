-- ===== src/Settings/Examples.antt =====
-- The theorems on settings at concrete data, with a seal that marks a text in front.
use agience_origin.Base.{
  ◌≡◌, refl, true, false, Option, none, some, List, [], ◌∷◌, Text, codes, ◌==◌, text_eq, text_beq,
  lower, get, ◌⊎◌, if-branches, subst, eq_iff,
}
use agience_origin.KeyCustody.Router.{AuthContext}
use agience_origin.Settings.Keys.{is_reserved_key, is_secret_key, defaults}
use agience_origin.Settings.Cache.{
  PlatformSetting, Settings, Item, load_all, get_setting, get_secret, run,
}
use agience_origin.Settings.Agreement.{run-load_all}
use agience_origin.Settings.Secrecy.{run-RowsSealed, Sealed, RowsSealed}
use agience_origin.Settings.Admin.{
  SettingItem, update_settings, put_secret, read_secret, refused, platform_admin_user_id,
  oracle_key,
}
use agience_origin.Settings.Masked.{update_settings-masked}
use agience_origin.Settings.Operator.{IsOperator, update_settings-IsOperator}
use agience_origin.Settings.Blanked.{masked, update_settings-blanks}

abbrev seal : Text → Text
seal s = 35 ∷ s

abbrev unseal : Text → Option Text
unseal [] = none
unseal (c ∷ s) = some s

abbrev password_key : Text
password_key = codes "email.smtp.password"

abbrev password_row : PlatformSetting
password_row = record {
  value = none;
  secret_value = some (codes "#old");
  is_secret = true;
  category = some (codes "email");
  updated_by = none;
}

abbrev rows : List (Text × PlatformSetting)
rows = (password_key, password_row) ∷ []

-- One write of a password that its caller calls no secret, and one of a title.
abbrev batches : List (List Item × Option Text)
batches =
    (
      record { key = password_key; value = some (codes "new"); is_secret = false; category = none }
          ∷ record {
            key = codes "branding.title";
            value = some (codes "Home");
            is_secret = false;
            category = none;
          }
          ∷ [],
      none,
    )
    ∷ []

abbrev after : Settings
after = run seal (record { rows = rows; cache = load_all unseal rows }) batches

run-load_all_example :
    (get_setting after.cache password_key none
      ≡ get_setting (load_all unseal after.rows) password_key none)
    × (get_secret after.cache password_key ≡ get_secret (load_all unseal after.rows) password_key)
unfolding get
run-load_all_example =
    run-load_all unseal seal (λ t. refl) (λ t. refl) rows batches password_key none (refl, tt)
      ((refl, (refl, tt)), tt)

rows-RowsSealed : RowsSealed rows
unfolding get is_reserved_key text_beq lower
rows-RowsSealed key =
    if-branches (Sealed key) (password_key == key)
      (λ e.
        let same : password_key ≡ key = (eq_iff password_key key).0 e in
        (λ secret. refl, subst (λ k. is_reserved_key k ≡ false) same refl))
      (λ e. tt)

run-RowsSealed_example :
    Sealed password_key (get password_key after.rows)
    × (is_secret_key password_key ≡ true
        → get_setting after.cache password_key none ≡ get password_key defaults)
unfolding get
run-RowsSealed_example =
    run-RowsSealed unseal seal rows batches password_key (refl, tt) rows-RowsSealed

abbrev operator : AuthContext
operator = record {
  principal_type = codes "user";
  principal_id = codes "u-1";
  user_id = some (codes "u-1");
  actor = none;
}

-- A server that acts for the operator.
abbrev delegate : AuthContext
delegate = record {
  principal_type = codes "user";
  principal_id = codes "u-1";
  user_id = some (codes "u-1");
  actor = some (codes "mail-server");
}

abbrev claimed : Settings
claimed = record {
  rows = rows;
  cache = record {
    values = (codes "platform.operator_id", codes "u-1") ∷ [];
    secrets = (password_key, codes "old") ∷ (oracle_key (codes "deploy"), codes "k1") ∷ [];
  };
}

-- The page's own form, with the password left as it was shown.
abbrev form : List SettingItem
form =
    record { key = codes "branding.title"; value = some (codes "Home") }
    ∷ record { key = password_key; value = none }
    ∷ []

update_settings-masked_example :
    let s' = (update_settings [] seal claimed operator form).0 in
    (get password_key s'.rows ≡ get password_key rows)
    × (get_secret s'.cache password_key ≡ get_secret claimed.cache password_key)
unfolding is_secret_key is_reserved_key lower text_beq
update_settings-masked_example =
    update_settings-masked [] password_key refl seal claimed operator form
      ((λ e. absurd (cc)), ((λ e. refl), tt))

update_settings-IsOperator_example :
    IsOperator claimed.cache delegate
    ⊎ (((update_settings [] seal claimed delegate form).0 ≡ claimed)
        × ((put_secret seal claimed delegate (codes "deploy") (some (codes "k2"))).0 ≡ claimed)
        × (read_secret claimed delegate (codes "deploy") ≡ refused 403))
update_settings-IsOperator_example =
    update_settings-IsOperator [] seal claimed delegate form (codes "deploy") (some (codes "k2"))

abbrev deploy : Text
deploy = oracle_key (codes "deploy")

update_settings-blanks_example :
    let s' = (update_settings [] seal claimed operator (masked deploy ∷ [])).0 in
    (get_secret s'.cache deploy ≡ none) × (get_setting s'.cache deploy none ≡ some [])
unfolding platform_admin_user_id get_setting get text_beq is_secret_key is_reserved_key lower
update_settings-blanks_example = update_settings-blanks [] seal claimed operator deploy refl refl
