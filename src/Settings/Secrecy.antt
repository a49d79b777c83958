-- ===== src/Settings/Secrecy.antt =====
-- Secrets stay out of the plaintext column and out of the readable half of the cache, whatever flag a
-- caller sends, and no setting is written under the prefix of key custody.
use agience_origin.Base.{
  Bool, true, false, ◌||◌, Option, none, some, List, [], ◌∷◌, Text, ◌==◌, eq_iff, text_eq, ◌≡◌,
  refl, get, put, Distinct, arith, get-put, get-pop, if-branches, subst, sym,
}
use agience_origin.Settings.Keys.{is_reserved_key, is_secret_key, defaults}
use agience_origin.Settings.Cache.{
  PlatformSetting, SettingsCache, Settings, Item, empty_cache, load_all, or_text, set_row,
  apply_to_cache, set_value, classified, stage, apply_all, set_many, run, get_setting,
}
use agience_origin.Settings.Lookup.{plain_of, value-absorb_all}
use agience_origin.Settings.Agreement.{Returns, bind-Returns}

-- A row under a secret key has no plaintext, and no row stands under a reserved key.
abbrev pub Sealed : Text → Option PlatformSetting → Type 0
Sealed key none = Unit
Sealed key (some row) =
    (is_secret_key key ≡ true → row.value ≡ none) × (is_reserved_key key ≡ false)

abbrev pub RowsSealed : List (Text × PlatformSetting) → Type 0
RowsSealed rows = (key : Text) → Sealed key (get key rows)

abbrev pub ValuesSealed : SettingsCache → Type 0
ValuesSealed cache = (key : Text) → is_secret_key key ≡ true → get key cache.values ≡ none

absent-Sealed :
    (key : Text)
    → is_reserved_key key ≡ true
    → (o : Option PlatformSetting) → Sealed key o
    → o ≡ none
absent-Sealed key r none h = refl
absent-Sealed key r (some row) h = absurd (cc (r, h.1))

get_setting_of_none :
    (c : SettingsCache) (key : Text)
    → get key c.values ≡ none
    → get_setting c key none ≡ get key defaults
unfolding get_setting
get_setting_of_none c key h = rw (h, get_setting) (go (get key defaults))
  where
    go : (o : Option Text) → (elim o [ some v ↦ some v | none ↦ none ]) ≡ o
    go none = refl
    go (some v) = refl

module _ (encrypt : Text → Text) where
  put-RowsSealed :
      (rows : List (Text × PlatformSetting)) (key : Text) (row : PlatformSetting)
      → is_reserved_key key ≡ false
      → (is_secret_key key ≡ true → row.value ≡ none)
      → RowsSealed rows
      → RowsSealed (put key row rows)
  put-RowsSealed rows key row r h sealed k = subst (Sealed k) (sym (get-put key k row rows)) (
      if-branches (Sealed k) (key == k)
        (λ e.
          let same : key ≡ k = (eq_iff key k).0 e in subst (λ j. Sealed j (some row)) same (h, r))
        (λ e. sealed k))

  set_value-RowsSealed :
      (rows : List (Text × PlatformSetting)) (key : Text) (raw : Option Text) (b : Bool)
      (category author : Option Text)
      → RowsSealed rows
      → Returns RowsSealed (set_value encrypt rows key raw b category author)
  unfolding set_value set_row
  set_value-RowsSealed rows key raw b category author sealed =
      if-branches (Returns RowsSealed) (is_reserved_key key) (λ yes. record { returned = tt })
        (λ free.
          if-branches (Returns RowsSealed) (is_secret_key key || b)
            (λ s. record { returned = put-RowsSealed rows key _ free (λ secret. refl) sealed })
            (λ s. record {
              returned = put-RowsSealed rows key _ free (λ secret. ground arith) sealed;
            }))

  stage-RowsSealed :
      (items : List Item) (rows : List (Text × PlatformSetting)) (author : Option Text)
      → RowsSealed rows
      → Returns RowsSealed (stage encrypt rows items author)
  unfolding stage
  stage-RowsSealed [] rows author sealed = record { returned = sealed }
  stage-RowsSealed (item ∷ items) rows author sealed =
      bind-Returns RowsSealed RowsSealed
        (set_value encrypt rows item.key item.value (classified encrypt item) item.category author)
        (λ rs. stage encrypt rs items author)
        (set_value-RowsSealed rows item.key item.value _ item.category author sealed)
        (λ rs h. stage-RowsSealed items rs author h)

  apply_to_cache-ValuesSealed :
      (cache : SettingsCache) (key : Text) (raw : Option Text) (b : Bool)
      → ValuesSealed cache
      → ValuesSealed (apply_to_cache cache key raw (is_secret_key key || b))
  unfolding apply_to_cache
  apply_to_cache-ValuesSealed cache key raw b sealed k s = ground (
    arith,
    get-put key k (or_text raw) cache.values,
    get-pop key k cache.values,
    sealed k s,
    eq_iff key k,
  )

  apply_all-ValuesSealed :
      (items : List Item) (cache : SettingsCache)
      → ValuesSealed cache
      → ValuesSealed (apply_all encrypt cache items)
  unfolding apply_all
  apply_all-ValuesSealed [] cache sealed = sealed
  apply_all-ValuesSealed (item ∷ items) cache sealed =
      apply_all-ValuesSealed items _
        (apply_to_cache-ValuesSealed cache item.key item.value item.is_secret sealed)

  abbrev IsSealed : Settings → Type 0
  IsSealed s = RowsSealed s.rows × ValuesSealed s.cache

  set_many-IsSealed :
      (s : Settings) (items : List Item) (author : Option Text)
      → IsSealed s
      → IsSealed (set_many encrypt s items author)
  unfolding set_many
  set_many-IsSealed s items author h =
      go (stage encrypt s.rows items author) (stage-RowsSealed items s.rows author h.0)
    where
      go :
          (o : Option (List (Text × PlatformSetting)))
          → Returns RowsSealed o
          → IsSealed (elim o [
            | none ↦ s
            | some rows ↦ record { rows = rows; cache = apply_all encrypt s.cache items }
          ])
      go none r = h
      go (some rows) r = (r.returned, apply_all-ValuesSealed items s.cache h.1)

  run-IsSealed :
      (batches : List (List Item × Option Text)) (s : Settings)
      → IsSealed s
      → IsSealed (run encrypt s batches)
  unfolding run
  run-IsSealed [] s h = h
  run-IsSealed ((items, author) ∷ batches) s h =
      run-IsSealed batches (set_many encrypt s items author) (set_many-IsSealed s items author h)

plain_of-Sealed :
    (key : Text) (o : Option PlatformSetting)
    → Sealed key o
    → is_secret_key key ≡ true
    → plain_of key o ≡ none
plain_of-Sealed key none h s = refl
plain_of-Sealed key (some row) h s = let v : row.value ≡ none = h.0 s in ground arith

load_all-ValuesSealed :
    (decrypt : Text → Option Text) (rows : List (Text × PlatformSetting))
    → Distinct rows
    → RowsSealed rows
    → ValuesSealed (load_all decrypt rows)
unfolding load_all get
load_all-ValuesSealed decrypt rows d sealed key s =
    let p : plain_of key (get key rows) ≡ none =
      plain_of-Sealed key (get key rows) (sealed key) s in
    cc (value-absorb_all decrypt empty_cache key rows d, p)

-- Whatever flag a caller sends with its writes: after a load and any batches, no row stands
-- under a reserved key, a row under a key that is classed secret has no plaintext, and reading
-- such a key as a plain setting gives its default, if it has one, and nothing otherwise. This
-- held of the table to begin with, whose keys are distinct.
pub run-RowsSealed :
    (decrypt : Text → Option Text) (encrypt : Text → Text) (rows : List (Text × PlatformSetting))
    (batches : List (List Item × Option Text)) (key : Text)
    → Distinct rows
    → RowsSealed rows
    → let s = run encrypt (record { rows = rows; cache = load_all decrypt rows }) batches in
      Sealed key (get key s.rows)
      × (is_secret_key key ≡ true → get_setting s.cache key none ≡ get key defaults)
run-RowsSealed decrypt encrypt rows batches key d sealed =
    let s0 : Settings = record { rows = rows; cache = load_all decrypt rows } in
    let h : IsSealed encrypt (run encrypt s0 batches) =
      run-IsSealed encrypt batches s0 (sealed, load_all-ValuesSealed decrypt rows d sealed) in
    (h.0 key, λ secret. get_setting_of_none (run encrypt s0 batches).cache key (h.1 key secret))
