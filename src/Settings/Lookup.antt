-- ===== src/Settings/Lookup.antt =====
-- What a load puts in the cache, key by key: the table's own content, undecryptable rows left out.
use agience_origin.Base.{
  ◌&&◌, Option, none, some, List, [], ◌∷◌, Text, ◌==◌, eq_iff, text_eq, if◌then◌else◌, ◌≡◌, refl,
  get, Distinct, arith, get-put,
}
use agience_origin.Settings.Keys.{is_reserved_key}
use agience_origin.Settings.Cache.{
  PlatformSetting, SettingsCache, absorb, absorb_all, absorb_secret, absorb_value, or_text,
  is_truthy,
}

abbrev pub or_else : Option Text → Option Text → Option Text
or_else none o = o
or_else (some v) o = some v

-- The plain value a row holds.
abbrev pub plain_in : Text → PlatformSetting → Option Text
plain_in key row = if is_reserved_key key then none else if row.is_secret then none else row.value

abbrev pub plain_of : Text → Option PlatformSetting → Option Text
plain_of key none = none
plain_of key (some row) = plain_in key row

module _ (decrypt : Text → Option Text) where
  -- The secret a row holds.
  abbrev pub secret_in : Text → PlatformSetting → Option Text
  secret_in key row =
      if is_reserved_key key
      then none
      else if row.is_secret && is_truthy row.secret_value
      then decrypt (or_text row.secret_value)
      else none

  abbrev pub secret_of : Text → Option PlatformSetting → Option Text
  secret_of key none = none
  secret_of key (some row) = secret_in key row

  value-absorb_value :
      (c : SettingsCache) (k key : Text) (o : Option Text)
      → get key (absorb_value decrypt c k o).values
        ≡ (if k == key then or_else o (get key c.values) else get key c.values)
  value-absorb_value c k key none = ground arith
  value-absorb_value c k key (some v) = get-put k key v c.values

  secret-absorb_secret :
      (c : SettingsCache) (k key : Text) (o : Option Text)
      → get key (absorb_secret decrypt c k o).secrets
        ≡ (if k == key then or_else o (get key c.secrets) else get key c.secrets)
  secret-absorb_secret c k key none = ground arith
  secret-absorb_secret c k key (some v) = get-put k key v c.secrets

  same_value :
      (c : SettingsCache) (k key : Text) (o : Option Text)
      → get key (absorb_secret decrypt c k o).values ≡ get key c.values
  same_value c k key none = refl
  same_value c k key (some v) = refl

  same_secret :
      (c : SettingsCache) (k key : Text) (o : Option Text)
      → get key (absorb_value decrypt c k o).secrets ≡ get key c.secrets
  same_secret c k key none = refl
  same_secret c k key (some v) = refl

  value-absorb :
      (c : SettingsCache) (k key : Text) (row : PlatformSetting)
      → get key (absorb decrypt c k row).values
        ≡ (if k == key then or_else (plain_in k row) (get key c.values) else get key c.values)
  unfolding absorb
  value-absorb c k key row = ground (
    arith,
    value-absorb_value c k key row.value,
    same_value c k key (decrypt (or_text row.secret_value)),
  )

  secret-absorb :
      (c : SettingsCache) (k key : Text) (row : PlatformSetting)
      → get key (absorb decrypt c k row).secrets
        ≡ (if k == key then or_else (secret_in k row) (get key c.secrets) else get key c.secrets)
  unfolding absorb
  secret-absorb c k key row = ground (
    arith,
    secret-absorb_secret c k key (decrypt (or_text row.secret_value)),
    same_secret c k key row.value,
  )

  pub value-absorb_all :
      (c : SettingsCache) (key : Text) (rows : List (Text × PlatformSetting))
      → Distinct rows
      → get key (absorb_all decrypt c rows).values
        ≡ or_else (plain_of key (get key rows)) (get key c.values)
  unfolding absorb_all get
  value-absorb_all c key [] d = refl
  value-absorb_all c key ((k, row) ∷ rows) d = ground (
    arith,
    value-absorb_all (absorb decrypt c k row) key rows d.1,
    value-absorb c k key row,
    eq_iff k key,
  )

  pub secret-absorb_all :
      (c : SettingsCache) (key : Text) (rows : List (Text × PlatformSetting))
      → Distinct rows
      → get key (absorb_all decrypt c rows).secrets
        ≡ or_else (secret_of key (get key rows)) (get key c.secrets)
  unfolding absorb_all get
  secret-absorb_all c key [] d = refl
  secret-absorb_all c key ((k, row) ∷ rows) d = ground (
    arith,
    secret-absorb_all (absorb decrypt c k row) key rows d.1,
    secret-absorb c k key row,
    eq_iff k key,
  )
