-- ===== src/Settings/Admin.antt =====
-- routers/system_router.py, the guard and the writes of routers/oracle_router.py, and
-- services/key_oracle.py. What the admin routes may do with the settings. The operator's id is a UUID,
-- and the keys that need a restart are an argument.
use agience_origin.Base.{
  ℕ, Bool, true, false, not, ◌&&◌, ◌||◌, Option, none, some, List, [], ◌∷◌, ◌++◌, Text, codes, ◌==◌,
  nat_eq, text_eq, if◌then◌else◌, any, length,
}
use agience_origin.KeyCustody.Router.{AuthContext}
use agience_origin.Settings.Keys.{is_reserved_key, is_secret_key}
use agience_origin.Settings.Cache.{
  SettingsCache, Settings, Item, get_setting, get_secret, or_text, is_truthy, set_many, set_one,
}

pub record SettingItem : Type 0 where
  pub key : Text
  pub value : Option Text

pub data Reply : Type 0 where
  http_error : ℕ → Reply
  updated : ℕ → Bool → Reply

abbrev is_dot : ℕ → Bool
is_dot c = c == 46

abbrev before_dot : Text → Text
before_dot [] = []
before_dot (c ∷ s) = if is_dot c then [] else c ∷ before_dot s

abbrev pub category_of : Text → Text
category_of key = if any is_dot key then before_dot key else codes "platform"

abbrev pub is_absent : Option Text → Bool
is_absent none = true
is_absent (some s) = false

abbrev pub same_id : Option Text → Option Text → Bool
same_id (some a) (some b) = a == b
same_id _ _ = false

-- The id of the operator, where the caller is the operator itself.
unfoldable pub platform_admin_user_id : SettingsCache → AuthContext → Option Text
platform_admin_user_id cache auth =
    if not (auth.principal_type == codes "user")
      || (not (is_absent auth.actor) || not (is_truthy auth.user_id))
    then none
    else let operator_id = get_setting cache (codes "platform.operator_id") none in
      if is_truthy operator_id && same_id auth.user_id operator_id then auth.user_id else none

module _ (restart_required_keys : List Text) where
  -- The items that are written, and whether one needs a restart. A reserved key ends the request.
  abbrev pub prepared : SettingItem → Option (List Item × Bool) → Option (List Item × Bool)
  prepared item none = none
  prepared item (some (items, restart)) =
      if is_secret_key item.key && not (is_truthy item.value)
      then some (items, restart)
      else some (
        record {
          key = item.key;
          value = some (or_text item.value);
          is_secret = false;
          category = some (category_of item.key);
        }
            ∷ items,
        any (λ k. k == item.key) restart_required_keys || restart,
      )

  unfoldable pub prepare : List SettingItem → Option (List Item × Bool)
  prepare [] = some ([], false)
  prepare (item ∷ items) =
      let rest = prepare items in if is_reserved_key item.key then none else prepared item rest

  module _ (encrypt : Text → Text) where
    abbrev pub write_prepared : Settings → Text → Option (List Item × Bool) → Settings × Reply
    write_prepared s admin none = (s, http_error 400)
    write_prepared s admin (some (items, restart)) =
        (set_many encrypt s items (some admin), updated (length items) restart)

    abbrev pub answer_to : Settings → List SettingItem → Option Text → Settings × Reply
    answer_to s items none = (s, http_error 403)
    answer_to s items (some admin) = write_prepared s admin (prepare items)

    unfoldable pub update_settings : Settings → AuthContext → List SettingItem → Settings × Reply
    update_settings s auth items = answer_to s items (platform_admin_user_id s.cache auth)

-- The oracle keeps its secrets among the settings.
abbrev pub oracle_key : Text → Text
oracle_key key_id = codes "oracle." ++ key_id

unfoldable pub store_secret : (Text → Text) → Settings → Text → Text → Settings
store_secret encrypt s key_id value =
    set_one encrypt s
      (record {
        key = oracle_key key_id;
        value = some value;
        is_secret = true;
        category = some (codes "oracle");
      })
      none

pub data OracleReply : Type 0 where
  refused : ℕ → OracleReply
  stored : Text → OracleReply
  released : Text → OracleReply

module _ (encrypt : Text → Text) where
  abbrev pub store_checked : Settings → Text → Option Text → Settings × OracleReply
  store_checked s key_id (some (c ∷ r)) = (store_secret encrypt s key_id (c ∷ r), stored key_id)
  store_checked s key_id _ = (s, refused 400)

  abbrev pub stored_by : Settings → Text → Option Text → Option Text → Settings × OracleReply
  stored_by s key_id value none = (s, refused 403)
  stored_by s key_id value (some op) = store_checked s key_id value

  unfoldable pub put_secret : Settings → AuthContext → Text → Option Text → Settings × OracleReply
  put_secret s auth key_id value = stored_by s key_id value (platform_admin_user_id s.cache auth)

abbrev pub released_or_404 : Option Text → OracleReply
released_or_404 none = refused 404
released_or_404 (some v) = released v

abbrev pub read_by : Settings → Text → Option Text → OracleReply
read_by s key_id none = refused 403
read_by s key_id (some op) = released_or_404 (get_secret s.cache (oracle_key key_id))

unfoldable pub read_secret : Settings → AuthContext → Text → OracleReply
read_secret s auth key_id = read_by s key_id (platform_admin_user_id s.cache auth)
