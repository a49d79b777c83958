-- ===== src/Settings/Blanked.antt =====
-- A secret whose key does not look like one, under which the oracle may keep it: the settings page
-- sends it back without its value.
use agience_origin.Base.{
  true, false, ◌||◌, Option, none, some, List, [], ◌∷◌, Text, ◌==◌, text_eq, any, get-put, get-pop,
  ◌≡◌, refl, arith, subst, sym, is_some, eq_refl, ap,
}
use agience_origin.KeyCustody.Router.{AuthContext}
use agience_origin.Settings.Keys.{is_reserved_key, is_secret_key}
use agience_origin.Settings.Cache.{
  SettingsCache, Settings, Item, get_setting, get_secret, set_value, stage, apply_to_cache,
  apply_all, set_many,
}
use agience_origin.Settings.Admin.{
  SettingItem, category_of, platform_admin_user_id, prepare, answer_to, update_settings,
}

is_reserved_key_of_plain : (key : Text) → is_secret_key key ≡ false → is_reserved_key key ≡ false
unfolding is_secret_key
is_reserved_key_of_plain key h = ground arith

-- The item a settings page sends back for a field it was not shown.
abbrev pub masked : Text → SettingItem
masked key = record { key = key; value = none }

abbrev Blanked : Text → Settings → Type 0
Blanked key s = (get_secret s.cache key ≡ none) × (get_setting s.cache key none ≡ some [])

abbrev blank : Text → Item
blank key = record {
  key = key;
  value = some [];
  is_secret = false;
  category = some (category_of key);
}

prepare-masked :
    (restart_required_keys : List Text) (key : Text)
    → is_secret_key key ≡ false
    → prepare restart_required_keys (masked key ∷ [])
      ≡ some (blank key ∷ [], any (λ k. k == key) restart_required_keys || false)
unfolding prepare
prepare-masked restart_required_keys key plain = rw (is_reserved_key_of_plain key plain, plain) refl

Blanked-apply_to_cache :
    (cache : SettingsCache) (key : Text)
    → let cache' = apply_to_cache cache key (some []) false in
      (get_secret cache' key ≡ none) × (get_setting cache' key none ≡ some [])
unfolding apply_to_cache get_secret get_setting
Blanked-apply_to_cache cache key = (
  rw (get-pop key key cache.secrets, eq_refl key) refl,
  rw (get-put key key [] cache.values, eq_refl key, get_setting) refl,
)

cache-set_many-blank :
    (encrypt : Text → Text) (s : Settings) (key : Text) (author : Option Text)
    → is_secret_key key ≡ false
    → (set_many encrypt s (blank key ∷ []) author).cache
      ≡ apply_to_cache s.cache key (some []) false
unfolding set_many stage set_value apply_all
cache-set_many-blank encrypt s key author plain =
    rw (is_reserved_key_of_plain key plain, plain, set_many, stage, set_value, apply_all)
      (ap (λ b. apply_to_cache s.cache key (some []) (b || false)) plain)

set_many-Blanked :
    (encrypt : Text → Text) (s : Settings) (key : Text) (author : Option Text)
    → is_secret_key key ≡ false
    → Blanked key (set_many encrypt s (blank key ∷ []) author)
set_many-Blanked encrypt s key author plain =
    subst (λ c. (get_secret c key ≡ none) × (get_setting c key none ≡ some []))
      (sym (cache-set_many-blank encrypt s key author plain)) (Blanked-apply_to_cache s.cache key)

-- A secret under a key that is not classed secret by its name, as the oracle keeps them, is lost
-- when the operator sends it back without a value: the secret is gone from the cache and the key
-- reads as an empty setting.
pub update_settings-blanks :
    (restart_required_keys : List Text) (encrypt : Text → Text) (s : Settings) (auth : AuthContext)
    (key : Text)
    → is_some (platform_admin_user_id s.cache auth) ≡ true
    → is_secret_key key ≡ false
    → let s' = (update_settings restart_required_keys encrypt s auth (masked key ∷ [])).0 in
      (get_secret s'.cache key ≡ none) × (get_setting s'.cache key none ≡ some [])
unfolding update_settings
update_settings-blanks restart_required_keys encrypt s auth key h plain =
    go (platform_admin_user_id s.cache auth) h
  where
    go :
        (o : Option Text)
        → is_some o ≡ true
        → Blanked key (answer_to restart_required_keys encrypt s (masked key ∷ []) o).0
    go none e = absurd (cc)
    go (some admin) e =
        rw (prepare-masked restart_required_keys key plain)
          (set_many-Blanked encrypt s key (some admin) plain)
