-- ===== src/Settings/Masked.antt =====
-- A settings page is shown no secret and sends its fields back without a value: what such a request
-- leaves alone.
use agience_origin.Base.{
  Bool, true, false, not, ◌&&◌, ◌||◌, Option, none, some, List, [], ◌∷◌, Text, ◌==◌, eq_iff,
  text_eq, All, get, put, get-put, get-pop, ◌≡◌, refl, arith, if-branches, subst, Bool-cases, inl,
  inr,
}
use agience_origin.KeyCustody.Router.{AuthContext}
use agience_origin.Settings.Keys.{is_reserved_key, is_secret_key}
use agience_origin.Settings.Cache.{
  PlatformSetting, SettingsCache, Settings, Item, get_secret, or_text, is_truthy, set_value,
  set_row, stage, apply_to_cache, apply_all, classified, set_many,
}
use agience_origin.Settings.Agreement.{Returns, bind-Returns}
use agience_origin.Settings.Admin.{
  SettingItem, platform_admin_user_id, prepared, prepare, write_prepared, answer_to,
  update_settings,
}

-- The item writes another key.
abbrev Spares : Text → Item → Type 0
Spares key item = (item.key == key) ≡ false

module _ (encrypt : Text → Text) (key : Text) where
  abbrev SameRow : List (Text × PlatformSetting) → List (Text × PlatformSetting) → Type 0
  SameRow rows rows' = get key rows' ≡ get key rows

  get-put-other :
      (rows : List (Text × PlatformSetting)) (k : Text) (row : PlatformSetting)
      → (k == key) ≡ false
      → SameRow rows (put k row rows)
  get-put-other rows k row h = ground (arith, get-put k key row rows)

  set_value-SameRow :
      (rows : List (Text × PlatformSetting)) (k : Text) (raw : Option Text) (b : Bool)
      (category author : Option Text)
      → (k == key) ≡ false
      → Returns (SameRow rows) (set_value encrypt rows k raw b category author)
  unfolding set_value set_row
  set_value-SameRow rows k raw b category author h =
      if-branches (Returns (SameRow rows)) (is_reserved_key k) (λ yes. record { returned = tt })
        (λ free.
          if-branches (Returns (SameRow rows)) (is_secret_key k || b)
            (λ s. record { returned = get-put-other rows k _ h })
            (λ s. record { returned = get-put-other rows k _ h }))

  stage-SameRow :
      (items : List Item) (rows : List (Text × PlatformSetting)) (author : Option Text)
      → All (Spares key) items
      → Returns (SameRow rows) (stage encrypt rows items author)
  unfolding stage
  stage-SameRow [] rows author h = record { returned = refl }
  stage-SameRow (item ∷ items) rows author h =
      bind-Returns (SameRow rows) (SameRow rows)
        (set_value encrypt rows item.key item.value (classified encrypt item) item.category author)
        (λ rs. stage encrypt rs items author)
        (set_value-SameRow rows item.key item.value _ item.category author h.0)
        (λ rs same.
          subst (λ o. Returns (λ rs'. get key rs' ≡ o) (stage encrypt rs items author)) same
            (stage-SameRow items rs author h.1))

  secret-apply_all :
      (items : List Item) (cache : SettingsCache)
      → All (Spares key) items
      → get key (apply_all encrypt cache items).secrets ≡ get key cache.secrets
  unfolding apply_all apply_to_cache
  secret-apply_all [] cache h = refl
  secret-apply_all (item ∷ items) cache h = ground (
    arith,
    secret-apply_all items (apply_to_cache cache item.key item.value (classified encrypt item)) h.1,
    get-put item.key key (or_text item.value) cache.secrets,
    get-pop item.key key cache.secrets,
  )

  abbrev Untouched : Settings → Settings → Type 0
  Untouched s s' =
      (get key s'.rows ≡ get key s.rows) × (get_secret s'.cache key ≡ get_secret s.cache key)

  set_many-Untouched :
      (s : Settings) (items : List Item) (author : Option Text)
      → All (Spares key) items
      → Untouched s (set_many encrypt s items author)
  unfolding set_many get_secret
  set_many-Untouched s items author h =
      go (stage encrypt s.rows items author) (stage-SameRow items s.rows author h)
    where
      go :
          (o : Option (List (Text × PlatformSetting)))
          → Returns (SameRow s.rows) o
          → Untouched s (elim o [
            | none ↦ s
            | some rows ↦ record { rows = rows; cache = apply_all encrypt s.cache items }
          ])
      go none r = (refl, refl)
      go (some rows) r = (r.returned, secret-apply_all items s.cache h)

abbrev Blank : Text → SettingItem → Type 0
Blank key item = (item.key == key) ≡ true → is_truthy item.value ≡ false

-- What is prepared spares the key.
abbrev PreparedSpares : Text → Option (List Item × Bool) → Type 0
PreparedSpares key none = Unit
PreparedSpares key (some (items, restart)) = All (Spares key) items

module _ (restart_required_keys : List Text) (key : Text) (secret : is_secret_key key ≡ true) where
  spares_of_Blank :
      (item : SettingItem)
      → Blank key item
      → (is_secret_key item.key && not (is_truthy item.value)) ≡ false
      → (item.key == key) ≡ false
  spares_of_Blank item blank h = elim (Bool-cases (item.key == key)) [
    | inr e ↦ e
    | inl e ↦
        let same : item.key ≡ key = (eq_iff item.key key).0 e in
        absurd (cc (same, secret, blank e, h))
  ]

  prepared-Spares :
      (item : SettingItem) (rest : Option (List Item × Bool))
      → Blank key item
      → PreparedSpares key rest
      → PreparedSpares key (prepared restart_required_keys item rest)
  prepared-Spares item none blank h = tt
  prepared-Spares item (some (items, restart)) blank h =
      if-branches (PreparedSpares key) (is_secret_key item.key && not (is_truthy item.value))
        (λ skipped. h) (λ written. (spares_of_Blank item blank written, h))

  prepare-Spares :
      (items : List SettingItem)
      → All (Blank key) items
      → PreparedSpares key (prepare restart_required_keys items)
  unfolding prepare
  prepare-Spares [] h = tt
  prepare-Spares (item ∷ items) h =
      if-branches (PreparedSpares key) (is_reserved_key item.key) (λ reserved. tt)
        (λ free. prepared-Spares item _ h.0 (prepare-Spares items h.1))

  write_prepared-Untouched :
      (encrypt : Text → Text) (s : Settings) (admin : Text) (o : Option (List Item × Bool))
      → PreparedSpares key o
      → Untouched encrypt key s (write_prepared restart_required_keys encrypt s admin o).0
  write_prepared-Untouched encrypt s admin none h = (refl, refl)
  write_prepared-Untouched encrypt s admin (some (items, restart)) h =
      set_many-Untouched encrypt key s items (some admin) h

  answer_to-Untouched :
      (encrypt : Text → Text) (s : Settings) (items : List SettingItem)
      → All (Blank key) items
      → (o : Option Text)
      → Untouched encrypt key s (answer_to restart_required_keys encrypt s items o).0
  answer_to-Untouched encrypt s items h none = (refl, refl)
  answer_to-Untouched encrypt s items h (some admin) =
      write_prepared-Untouched encrypt s admin _ (prepare-Spares items h)

  -- A settings page that sends a key that is classed secret back without a value, as it was
  -- shown it, loses nothing: whatever else is in the request and whoever sends it, the row under
  -- the key and the secret in the cache are as they were, provided that no item of the request
  -- has a value for the key.
  pub update_settings-masked :
      (encrypt : Text → Text) (s : Settings) (auth : AuthContext) (items : List SettingItem)
      → All (Blank key) items
      → let s' = (update_settings restart_required_keys encrypt s auth items).0 in
        (get key s'.rows ≡ get key s.rows) × (get_secret s'.cache key ≡ get_secret s.cache key)
  unfolding update_settings
  update_settings-masked encrypt s auth items h =
      answer_to-Untouched encrypt s items h (platform_admin_user_id s.cache auth)
