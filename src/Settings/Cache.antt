-- ===== src/Settings/Cache.antt =====
-- services/platform_settings_service.py and db/platform_settings.py. The table, the cache, and the writes that go through both. Fernet is a parameter. A batch that
-- raises is rolled back by its caller, so it leaves the state as it was.
use agience_origin.Base.{
  Bool, true, false, not, ◌&&◌, ◌||◌, Option, none, some, List, [], ◌∷◌, Text, codes, ◌==◌, text_eq,
  if◌then◌else◌, any, strip, lower, get, put, pop,
}
use agience_origin.Settings.Keys.{is_reserved_key, is_secret_key, defaults}

pub record PlatformSetting : Type 0 where
  pub value : Option Text
  pub secret_value : Option Text
  pub is_secret : Bool
  pub category : Option Text
  pub updated_by : Option Text

pub record SettingsCache : Type 0 where
  pub values : List (Text × Text)
  pub secrets : List (Text × Text)

pub record Settings : Type 0 where
  pub rows : List (Text × PlatformSetting)
  pub cache : SettingsCache

-- An entry of a batch.
pub record Item : Type 0 where
  pub key : Text
  pub value : Option Text
  pub is_secret : Bool
  pub category : Option Text

abbrev pub empty_cache : SettingsCache
empty_cache = record { values = []; secrets = [] }

abbrev pub or_text : Option Text → Text
or_text none = []
or_text (some s) = s

abbrev pub is_truthy : Option Text → Bool
is_truthy none = false
is_truthy (some []) = false
is_truthy (some (c ∷ s)) = true

-- db/platform_settings.py: `set_value`. What is not given of the category and the author stays.
abbrev pub or_kept : Option Text → Option Text → Option Text
or_kept none old = old
or_kept (some new) old = some new

abbrev pub kept_category : Option PlatformSetting → Option Text
kept_category none = none
kept_category (some row) = row.category

abbrev pub kept_author : Option PlatformSetting → Option Text
kept_author none = none
kept_author (some row) = row.updated_by

unfoldable pub set_row :
    List (Text × PlatformSetting)
    → Text
    → Option Text
    → Option Text
    → Bool
    → Option Text
    → Option Text
    → List (Text × PlatformSetting)
set_row rows key value secret_value is_secret category updated_by =
    put key
      (record {
        value = value;
        secret_value = secret_value;
        is_secret = is_secret;
        category = or_kept category (kept_category (get key rows));
        updated_by = or_kept updated_by (kept_author (get key rows));
      })
      rows

-- The reads of the cache.
unfoldable pub get_setting : SettingsCache → Text → Option Text → Option Text
get_setting cache key default = elim (get key cache.values) [
  | some v ↦ some v
  | none ↦ elim (get key defaults) [ some v ↦ some v | none ↦ default ]
]

unfoldable pub get_secret : SettingsCache → Text → Option Text
get_secret cache key = get key cache.secrets

abbrev pub is_yes : Text → Bool
is_yes s =
    any (λ y. y == lower (strip s)) (codes "1" ∷ codes "true" ∷ codes "yes" ∷ codes "on" ∷ [])

unfoldable pub get_bool : SettingsCache → Text → Bool → Bool
get_bool cache key default = elim (get_setting cache key none) [
  | none ↦ default
  | some raw ↦ is_yes raw
]

unfoldable pub needs_setup : SettingsCache → Bool
needs_setup cache =
    elim (get_setting cache (codes "platform.setup_complete") (some (codes "false"))) [
      | none ↦ true
      | some v ↦ not (v == codes "true")
    ]

unfoldable pub apply_to_cache : SettingsCache → Text → Option Text → Bool → SettingsCache
apply_to_cache cache key raw is_secret =
    if is_secret
    then record { values = pop key cache.values; secrets = put key (or_text raw) cache.secrets }
    else record { values = put key (or_text raw) cache.values; secrets = pop key cache.secrets }

module _ (encrypt : Text → Text) where
  -- `set_value` without its commit: the rows, or nothing where it raises.
  unfoldable pub set_value :
      List (Text × PlatformSetting)
      → Text
      → Option Text
      → Bool
      → Option Text
      → Option Text
      → Option (List (Text × PlatformSetting))
  set_value rows key raw is_secret category updated_by =
      if is_reserved_key key
      then none
      else if is_secret_key key || is_secret
      then some (set_row rows key none (some (encrypt (or_text raw))) true category updated_by)
      else some (set_row rows key raw none false category updated_by)

  abbrev pub classified : Item → Bool
  classified item = is_secret_key item.key || item.is_secret

  -- The rows of a batch, written one after another.
  unfoldable pub stage :
      List (Text × PlatformSetting)
      → List Item
      → Option Text
      → Option (List (Text × PlatformSetting))
  stage rows [] updated_by = some rows
  stage rows (item ∷ items) updated_by =
      elim (set_value rows item.key item.value (classified item) item.category updated_by) [
        | none ↦ none
        | some rows' ↦ stage rows' items updated_by
      ]

  unfoldable pub apply_all : SettingsCache → List Item → SettingsCache
  apply_all cache [] = cache
  apply_all cache (item ∷ items) =
      apply_all (apply_to_cache cache item.key item.value (classified item)) items

  unfoldable pub set_many : Settings → List Item → Option Text → Settings
  set_many s items updated_by = elim (stage s.rows items updated_by) [
    | none ↦ s
    | some rows ↦ record { rows = rows; cache = apply_all s.cache items }
  ]

  -- A single write with its commit.
  unfoldable pub set_one : Settings → Item → Option Text → Settings
  set_one s item updated_by =
      elim (set_value s.rows item.key item.value item.is_secret item.category updated_by) [
        | none ↦ s
        | some rows ↦ record {
          rows = rows;
          cache = apply_to_cache s.cache item.key item.value (classified item);
        }
      ]

  -- Batches with their authors.
  unfoldable pub run : Settings → List (List Item × Option Text) → Settings
  run s [] = s
  run s ((items, updated_by) ∷ batches) = run (set_many s items updated_by) batches

module _ (decrypt : Text → Option Text) where
  abbrev pub absorb_secret : SettingsCache → Text → Option Text → SettingsCache
  absorb_secret cache key none = cache
  absorb_secret cache key (some secret) = record cache { secrets = put key secret cache.secrets }

  abbrev pub absorb_value : SettingsCache → Text → Option Text → SettingsCache
  absorb_value cache key none = cache
  absorb_value cache key (some v) = record cache { values = put key v cache.values }

  unfoldable pub absorb : SettingsCache → Text → PlatformSetting → SettingsCache
  absorb cache key row =
      if is_reserved_key key
      then cache
      else if row.is_secret && is_truthy row.secret_value
      then absorb_secret cache key (decrypt (or_text row.secret_value))
      else if not row.is_secret
      then absorb_value cache key row.value
      else cache

  unfoldable pub absorb_all : SettingsCache → List (Text × PlatformSetting) → SettingsCache
  absorb_all cache [] = cache
  absorb_all cache ((key, row) ∷ rows) = absorb_all (absorb cache key row) rows

  unfoldable pub load_all : List (Text × PlatformSetting) → SettingsCache
  load_all rows = absorb_all empty_cache rows
