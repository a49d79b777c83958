-- ===== src/Settings/Operator.antt =====
-- Who may change the settings, and read or write the oracle's secrets.
use agience_origin.Base.{
  Bool, true, false, not, ◌&&◌, ◌||◌, Option, none, some, List, Text, codes, ◌==◌, eq_iff, text_eq,
  ◌≡◌, refl, if-branches, ◌⊎◌, inl, inr, ap,
}
use agience_origin.KeyCustody.Router.{AuthContext}
use agience_origin.Settings.Cache.{SettingsCache, Settings, get_setting, is_truthy}
use agience_origin.Settings.Admin.{
  SettingItem, platform_admin_user_id, answer_to, update_settings, same_id, is_absent, put_secret,
  read_secret, read_by, stored_by, refused,
}

-- The caller is a user, acts for nobody else, and its id is the one stored as the operator's.
pub record IsOperator (cache : SettingsCache) (auth : AuthContext) : Type 0 where
  pub is_user : auth.principal_type ≡ codes "user"
  pub acts_alone : auth.actor ≡ none
  pub is_stored : auth.user_id ≡ get_setting cache (codes "platform.operator_id") none
  pub is_named : is_truthy auth.user_id ≡ true

same_id_sound : (o p : Option Text) → same_id o p ≡ true → o ≡ p
same_id_sound (some a) (some b) h = let e : a ≡ b = (eq_iff a b).0 h in ap some e
same_id_sound (some a) none h = absurd (cc)
same_id_sound none o h = absurd (cc)

is_absent_sound : (o : Option Text) → is_absent o ≡ true → o ≡ none
is_absent_sound none h = refl
is_absent_sound (some a) h = absurd (cc)

abbrev NamesOperator : SettingsCache → AuthContext → Option Text → Type 0
NamesOperator cache auth none = Unit
NamesOperator cache auth (some admin) = IsOperator cache auth

named :
    (cache : SettingsCache) (auth : AuthContext) (o : Option Text)
    → IsOperator cache auth
    → NamesOperator cache auth o
named cache auth none h = tt
named cache auth (some admin) h = h

all_three :
    (a b c : Bool) → (not a || (not b || not c)) ≡ false → (a ≡ true) × (b ≡ true) × (c ≡ true)
all_three true true true h = (refl, refl, refl)
all_three true true false h = absurd (cc)
all_three true false c h = absurd (cc)
all_three false b c h = absurd (cc)

and_right : (a b : Bool) → (a && b) ≡ true → b ≡ true
and_right true b h = h
and_right false b h = absurd (cc)

platform_admin_user_id-NamesOperator :
    (cache : SettingsCache) (auth : AuthContext)
    → NamesOperator cache auth (platform_admin_user_id cache auth)
unfolding platform_admin_user_id
platform_admin_user_id-NamesOperator cache auth =
    let operator_id = get_setting cache (codes "platform.operator_id") none in
    let user : Bool = auth.principal_type == codes "user" in
    let alone : Bool = is_absent auth.actor in
    let set : Bool = is_truthy auth.user_id in
    if-branches (NamesOperator cache auth) (not user || (not alone || not set)) (λ refused. tt)
      (λ admitted.
        if-branches (NamesOperator cache auth)
          (is_truthy operator_id && same_id auth.user_id operator_id)
          (λ same. named cache auth auth.user_id (record {
            is_user =
                (eq_iff auth.principal_type (codes "user")).0 (all_three user alone set admitted).0;
            acts_alone = is_absent_sound auth.actor (all_three user alone set admitted).1;
            is_stored =
                same_id_sound auth.user_id operator_id (and_right (is_truthy operator_id) _ same);
            is_named = (all_three user alone set admitted).2;
          }))
          (λ other. tt))

-- Either the caller is the operator itself, which is a user, acts for nobody else and has the id
-- that is stored as the operator's; or a request of it to change settings changes nothing, a
-- request to store an oracle secret changes nothing, and a request to read one is answered 403.
pub update_settings-IsOperator :
    (restart_required_keys : List Text) (encrypt : Text → Text) (s : Settings) (auth : AuthContext)
    (items : List SettingItem) (key_id : Text) (value : Option Text)
    → IsOperator s.cache auth
      ⊎ (((update_settings restart_required_keys encrypt s auth items).0 ≡ s)
          × ((put_secret encrypt s auth key_id value).0 ≡ s)
          × (read_secret s auth key_id ≡ refused 403))
unfolding update_settings put_secret read_secret
update_settings-IsOperator restart_required_keys encrypt s auth items key_id value =
    go (platform_admin_user_id s.cache auth) (platform_admin_user_id-NamesOperator s.cache auth)
  where
    go :
        (o : Option Text)
        → NamesOperator s.cache auth o
        → IsOperator s.cache auth
          ⊎ (((answer_to restart_required_keys encrypt s items o).0 ≡ s)
              × ((stored_by encrypt s key_id value o).0 ≡ s)
              × (read_by s key_id o ≡ refused 403))
    go none h = inr (refl, refl, refl)
    go (some admin) h = inl h
