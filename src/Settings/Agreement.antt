-- ===== src/Settings/Agreement.antt =====
-- The cache against the table. Between loads every write goes to both, and what a reader is told
-- must be what a restart would tell it.
use agience_origin.Base.{
  Bool, true, false, ◌||◌, Option, none, some, List, [], ◌∷◌, Text, eq_iff, text_eq, ◌≡◌, refl, get,
  put, pop, Distinct, All, arith, get-put, get-pop, put-Distinct, is_some, if-branches, subst,
}
use agience_origin.Settings.Keys.{is_reserved_key, is_secret_key}
use agience_origin.Settings.Cache.{
  PlatformSetting, SettingsCache, Settings, Item, empty_cache, load_all, or_text, is_truthy,
  set_row, get_setting, get_secret, apply_to_cache, set_value, classified, stage, apply_all,
  set_many, run,
}
use agience_origin.Settings.Lookup.{
  or_else, plain_of, secret_of, value-absorb_all, secret-absorb_all,
}

-- Every item of every batch carries a value.
abbrev pub HasValue : Item → Type 0
HasValue item = is_some item.value ≡ true

abbrev pub AllValued : List Item × Option Text → Type 0
AllValued batch = All HasValue batch.0

-- What holds of the rows where something returned them.
abbrev pub ReturnedBy :
    (List (Text × PlatformSetting) → Type 0) → Option (List (Text × PlatformSetting)) → Type 0
ReturnedBy P none = Unit
ReturnedBy P (some rows) = P rows

pub record Returns (P : List (Text × PlatformSetting) → Type 0)
    (o : Option (List (Text × PlatformSetting))) : Type 0 where
  pub returned : ReturnedBy P o

pub bind-Returns :
    (P Q : List (Text × PlatformSetting) → Type 0) (m : Option (List (Text × PlatformSetting)))
    (f : List (Text × PlatformSetting) → Option (List (Text × PlatformSetting)))
    → Returns P m
    → ((rows : List (Text × PlatformSetting)) → P rows → Returns Q (f rows))
    → Returns Q (elim m [ none ↦ none | some rows ↦ f rows ])
bind-Returns P Q none f h k = record { returned = tt }
bind-Returns P Q (some rows) f h k = k rows h.returned

pub get_setting_of_value :
    (c d : SettingsCache) (key : Text) (default : Option Text)
    → get key c.values ≡ get key d.values
    → get_setting c key default ≡ get_setting d key default
unfolding get_setting
get_setting_of_value c d key default h = rw (h, get_setting) refl

or_twice : (a b : Bool) → (a || (a || b)) ≡ (a || b)
or_twice true b = refl
or_twice false b = refl

module _ (decrypt : Text → Option Text) where
  -- The cache holds what the table does.
  record Agrees (rows : List (Text × PlatformSetting)) (cache : SettingsCache) : Type 0 where
    distinct : Distinct rows
    value : (key : Text) → get key cache.values ≡ plain_of key (get key rows)
    secret : (key : Text) → get key cache.secrets ≡ secret_of decrypt key (get key rows)

  or_else-none : (o : Option Text) → or_else o none ≡ o
  or_else-none none = refl
  or_else-none (some v) = refl

  load-Agrees :
      (rows : List (Text × PlatformSetting)) → Distinct rows → Agrees rows (load_all decrypt rows)
  unfolding load_all get
  load-Agrees rows d = record {
    distinct = d;
    value = λ key. cc (
      value-absorb_all decrypt empty_cache key rows d,
      or_else-none (plain_of key (get key rows)),
    );
    secret = λ key. cc (
      secret-absorb_all decrypt empty_cache key rows d,
      or_else-none (secret_of decrypt key (get key rows)),
    );
  }

  secret_row :
      (rows : List (Text × PlatformSetting)) (cache : SettingsCache) (key raw : Text)
      (row : PlatformSetting)
      → Agrees rows cache
      → is_reserved_key key ≡ false
      → row.is_secret ≡ true
      → is_truthy row.secret_value ≡ true
      → decrypt (or_text row.secret_value) ≡ some raw
      → Agrees
          (put key row rows)
          (record { values = pop key cache.values; secrets = put key raw cache.secrets })
  secret_row rows cache key raw row a r s t d = record {
    distinct = put-Distinct key row rows a.distinct;
    value = λ k.
        ground (arith, get-pop key k cache.values, get-put key k row rows, a.value k, eq_iff key k);
    secret = λ k.
        ground (
          arith,
          get-put key k raw cache.secrets,
          get-put key k row rows,
          a.secret k,
          eq_iff key k,
        );
  }

  plain_row :
      (rows : List (Text × PlatformSetting)) (cache : SettingsCache) (key raw : Text)
      (row : PlatformSetting)
      → Agrees rows cache
      → is_reserved_key key ≡ false
      → row.is_secret ≡ false
      → row.value ≡ some raw
      → Agrees
          (put key row rows)
          (record { values = put key raw cache.values; secrets = pop key cache.secrets })
  plain_row rows cache key raw row a r s v = record {
    distinct = put-Distinct key row rows a.distinct;
    value = λ k.
        ground
          (arith, get-put key k raw cache.values, get-put key k row rows, a.value k, eq_iff key k);
    secret = λ k.
        ground
          (arith, get-pop key k cache.secrets, get-put key k row rows, a.secret k, eq_iff key k);
  }

  module _ (encrypt : Text → Text) (opens : (t : Text) → decrypt (encrypt t) ≡ some t)
      (is_written : (t : Text) → is_truthy (some (encrypt t)) ≡ true) where
    abbrev AgreesAfter : SettingsCache → Text → Text → Bool → List (Text × PlatformSetting) → Type 0
    AgreesAfter cache key raw b rows =
        Agrees rows (apply_to_cache cache key (some raw) (is_secret_key key || b))

    set_value-Agrees :
        (rows : List (Text × PlatformSetting)) (cache : SettingsCache) (key raw : Text) (b : Bool)
        (category author : Option Text)
        → Agrees rows cache
        → Returns
            (AgreesAfter cache key raw b)
            (set_value encrypt rows key (some raw) b category author)
    unfolding set_value set_row apply_to_cache
    set_value-Agrees rows cache key raw b category author a =
        if-branches (Returns (AgreesAfter cache key raw b)) (is_reserved_key key)
          (λ yes. record { returned = tt })
          (λ free.
            if-branches (Returns (AgreesAfter cache key raw b)) (is_secret_key key || b)
              (λ s. record {
                returned =
                    rw s (secret_row rows cache key raw _ a free refl (is_written raw) (opens raw));
              })
              (λ s. record { returned = rw s (plain_row rows cache key raw _ a free refl refl) }))

    abbrev AgreesOnce : SettingsCache → Item → Option Text → List (Text × PlatformSetting) → Type 0
    AgreesOnce cache item raw rows =
        Agrees rows (apply_to_cache cache item.key raw (classified encrypt item))

    item-Agrees :
        (rows : List (Text × PlatformSetting)) (cache : SettingsCache) (item : Item)
        (raw author : Option Text)
        → is_some raw ≡ true
        → Agrees rows cache
        → Returns
            (AgreesOnce cache item raw)
            (set_value encrypt rows item.key raw (classified encrypt item) item.category author)
    item-Agrees rows cache item none author h a = absurd (cc)
    item-Agrees rows cache item (some raw) author h a =
        subst
          (λ b.
            Returns (λ rs. Agrees rs (apply_to_cache cache item.key (some raw) b))
              (set_value encrypt rows item.key (some raw) (classified encrypt item) item.category
                author))
          (or_twice (is_secret_key item.key) item.is_secret)
          (set_value-Agrees rows cache item.key raw (classified encrypt item) item.category author
            a)

    abbrev AgreesAll : SettingsCache → List Item → List (Text × PlatformSetting) → Type 0
    AgreesAll cache items rows = Agrees rows (apply_all encrypt cache items)

    stage-Agrees :
        (items : List Item) (rows : List (Text × PlatformSetting)) (cache : SettingsCache)
        (author : Option Text)
        → All HasValue items
        → Agrees rows cache
        → Returns (AgreesAll cache items) (stage encrypt rows items author)
    unfolding stage apply_all
    stage-Agrees [] rows cache author h a = record { returned = a }
    stage-Agrees (item ∷ items) rows cache author h a =
        bind-Returns (AgreesOnce cache item item.value) (AgreesAll cache (item ∷ items))
          (set_value encrypt rows item.key item.value (classified encrypt item) item.category
            author)
          (λ rs. stage encrypt rs items author)
          (item-Agrees rows cache item item.value author h.0 a)
          (λ rs agreed. stage-Agrees items rs _ author h.1 agreed)

    set_many-Agrees :
        (s : Settings) (items : List Item) (author : Option Text)
        → All HasValue items
        → Agrees s.rows s.cache
        → let s' = set_many encrypt s items author in Agrees s'.rows s'.cache
    unfolding set_many
    set_many-Agrees s items author h a =
        go (stage encrypt s.rows items author) (stage-Agrees items s.rows s.cache author h a)
      where
        go :
            (o : Option (List (Text × PlatformSetting)))
            → Returns (AgreesAll s.cache items) o
            → let s' : Settings = elim o [
              | none ↦ s
              | some rows ↦ record { rows = rows; cache = apply_all encrypt s.cache items }
            ] in
              Agrees s'.rows s'.cache
        go none r = a
        go (some rows) r = r.returned

    run-Agrees :
        (batches : List (List Item × Option Text)) (s : Settings)
        → All AllValued batches
        → Agrees s.rows s.cache
        → Agrees (run encrypt s batches).rows (run encrypt s batches).cache
    unfolding run
    run-Agrees [] s h a = a
    run-Agrees ((items, author) ∷ batches) s h a =
        run-Agrees batches (set_many encrypt s items author) h.1
          (set_many-Agrees s items author h.0 a)

    -- The cache keeps up with the table: after a load and any batches of writes, those that
    -- raised included, every key reads the same, as a setting under any default and as a secret,
    -- as it would after a restart that loads the table anew. The keys of the table are distinct,
    -- each item written carries a value, as the routes that write batches make sure, and Fernet
    -- seals no text as an empty one and opens what it sealed.
    pub run-load_all :
        (rows : List (Text × PlatformSetting)) (batches : List (List Item × Option Text))
        (key : Text) (default : Option Text)
        → Distinct rows
        → All AllValued batches
        → let s = run encrypt (record { rows = rows; cache = load_all decrypt rows }) batches in
          (get_setting s.cache key default ≡ get_setting (load_all decrypt s.rows) key default)
          × (get_secret s.cache key ≡ get_secret (load_all decrypt s.rows) key)
    unfolding get_secret
    run-load_all rows batches key default d h =
        let s0 : Settings = record { rows = rows; cache = load_all decrypt rows } in
        let s : Settings = run encrypt s0 batches in
        let a : Agrees s.rows s.cache = run-Agrees batches s0 h (load-Agrees rows d) in
        let l : Agrees s.rows (load_all decrypt s.rows) = load-Agrees s.rows a.distinct in
        let v : get key s.cache.values ≡ get key (load_all decrypt s.rows).values =
          cc (a.value key, l.value key) in
        (
          get_setting_of_value s.cache (load_all decrypt s.rows) key default v,
          cc (a.secret key, l.secret key),
        )
