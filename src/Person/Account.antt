-- ===== src/Person/Account.antt =====
-- The rehash of a password that was just checked, against a change of it that ran in between.
use agience_origin.Base.{
  ◌≡◌, refl, Bool, false, ◌&&◌, some, List, [], ◌∷◌, Text, ◌==◌, text_eq, arith, any, if◌then◌else◌,
  update_where, Bool-cases, inl, inr,
}
use agience_origin.Person.Store.{Person, Db, has_hash, replace_password_hash}

module _ (id expected new : Text) (changed : (new == expected) ≡ false) where
  abbrev is_hit : Person → Bool
  is_hit p = p.id == id && has_hash expected p.password_hash

  abbrev rehashed : Text → Person → Person
  rehashed hash p = record p { password_hash = some hash }

  spent_row : (p : Person) → is_hit (if is_hit p then rehashed new p else p) ≡ false
  spent_row p = elim (Bool-cases (is_hit p)) [
    | inl e ↦ rw e (ground (arith, changed))
    | inr e ↦ rw e e
  ]

  spent_none : (ps : List Person) → any is_hit (update_where is_hit (rehashed new) ps) ≡ false
  spent_none [] = refl
  spent_none (p ∷ ps) = ground (arith, spent_row p, spent_none ps)

untouched :
    (hit : Person → Bool) (f : Person → Person) (ps : List Person)
    → any hit ps ≡ false
    → update_where hit f ps ≡ ps
untouched hit f [] h = refl
untouched hit f (p ∷ ps) h = ground (arith, untouched hit f ps)

-- Once the hash of a row was replaced by another, a replacement that still expects the old hash
-- finds nothing: it reports no success and leaves every row as it is.
pub stale_replace :
    (db : Db) (id expected new other : Text)
    → (new == expected) ≡ false
    → replace_password_hash (replace_password_hash db id expected new).0 id expected other
      ≡ ((replace_password_hash db id expected new).0, false)
unfolding replace_password_hash
stale_replace db id expected new other changed =
    let gone = spent_none id expected new changed db.persons in
    let same =
      untouched (is_hit id expected new changed) (rehashed id expected new changed other)
        (update_where (is_hit id expected new changed) (rehashed id expected new changed new)
          db.persons)
        gone in
    λ i. (record db { persons = same i }, gone i)
