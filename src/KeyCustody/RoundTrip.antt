-- ===== src/KeyCustody/RoundTrip.antt =====
-- What was stored is what is released.
use agience_origin.Base.{
  ◌≡◌, refl, ap, ◌∙◌, ◌⊎◌, inl, inr, true, false, not, ◌&&◌, Option, none, some, List, [], ◌∷◌,
  ◌++◌, Text, ◌==◌, text_eq, nat_eq, eq_iff, eq_refl, arith, if-branches, any, update_where,
  count_where, first-append_none, first-update,
}
use agience_origin.KeyCustody.Shares.{
  KeyCustodyShare, Share, Presented, Outcome, released, valid_principal, is_row, read, validate,
  open_row, release_row, release_share, insert_share, is_unmoved, rewritten, is_same_share,
  replace_share, write_share, store_valid, store_share, names,
}
use agience_origin.KeyCustody.Kept.{is_accepted, share_beq_sound}

module _ (decrypt : Text → Option Text) where
  -- Either the share was taken and is what a release returns, or the table is as it was.
  abbrev pub Settled : List KeyCustodyShare → Text → Share → List KeyCustodyShare × Outcome → Type 0
  Settled rows principal_id new (rows', outcome) =
      ((is_accepted outcome ≡ true) × (release_share decrypt rows' principal_id ≡ released new))
      ⊎ ((is_accepted outcome ≡ false) × (rows' ≡ rows))

  release_found :
      (rows : List KeyCustodyShare) (principal_id : Text) (r : KeyCustodyShare) (s : Share)
      → read rows principal_id ≡ some r
      → decrypt r.y_sealed ≡ some s.y
      → r.x ≡ s.x
      → r.kcv ≡ s.kcv
      → release_share decrypt rows principal_id ≡ released s
  unfolding release_share
  release_found rows principal_id r s h opened ex ek = rw h (
      rw (opened, release_row, open_row) (λ i. released (record { x = ex i; y = s.y; kcv = ek i })))

  insert-Settled :
      (rows : List KeyCustodyShare) (principal_id : Text) (new : Share) (sealed : Text)
      → decrypt sealed ≡ some new.y
      → Settled rows principal_id new (insert_share rows principal_id new sealed)
  unfolding insert_share read
  insert-Settled rows principal_id new sealed opens =
      if-branches (Settled rows principal_id new) (any (is_row principal_id) rows)
        (λ _. inr (refl, refl))
        (λ free.
          let r : KeyCustodyShare = record {
            principal_id = principal_id;
            x = new.x;
            y_sealed = sealed;
            kcv = new.kcv;
          } in
          inl (refl, release_found _ principal_id r new (added r refl free) opens refl refl))
    where
      added :
          (r : KeyCustodyShare)
          → r.principal_id ≡ principal_id
          → any (is_row principal_id) rows ≡ false
          → read (rows ++ r ∷ []) principal_id ≡ some r
      added r mine free =
          first-append_none (is_row principal_id) r rows free
            ((eq_iff r.principal_id principal_id).1 mine)

  same_share_opens :
      (row : KeyCustodyShare) (new : Share)
      → is_same_share decrypt row new ≡ true
      → release_row decrypt (some row) ≡ released new
  same_share_opens row new h = go (decrypt row.y_sealed) refl
    where
      go :
          (o : Option Text)
          → decrypt row.y_sealed ≡ o
          → release_row decrypt (some row) ≡ released new
      go none e = absurd (ground arith)
      go (some y) e =
          let s : Share = record { x = row.x; y = y; kcv = row.kcv } in
          rw (e, release_row, open_row)
            (ap released (share_beq_sound s new (rw (e, is_same_share, open_row) at h)))

  replace-Settled :
      (rows : List KeyCustodyShare) (row : KeyCustodyShare) (principal_id : Text) (new : Share)
      (sealed : Text) (supersedes : Option Text)
      → read rows principal_id ≡ some row
      → decrypt sealed ≡ some new.y
      → Settled rows principal_id new (replace_share decrypt rows row new sealed supersedes)
  unfolding replace_share release_share read
  replace-Settled rows row principal_id new sealed supersedes h opens =
      let P = Settled rows principal_id new in
      if-branches P (is_same_share decrypt row new)
        (λ same. inl (refl, (rw h (same_share_opens row new same))))
        (λ _.
          if-branches P (not (row.kcv == new.kcv) && not (names supersedes row.kcv))
            (λ _. inr (refl, refl))
            (λ _.
              if-branches P (not (count_where (is_unmoved row) rows == 1)) (λ _. inr (refl, refl))
                (λ _. inl (
                  refl,
                  release_found (update_where (is_unmoved row) (rewritten new sealed) rows)
                      principal_id (rewritten new sealed row) new written opens refl refl,
                ))))
    where
      itself : is_unmoved row row ≡ true
      itself = ground (arith, eq_refl row.principal_id, eq_refl row.kcv, eq_refl row.y_sealed)

      written :
          read (update_where (is_unmoved row) (rewritten new sealed) rows) principal_id
          ≡ some (rewritten new sealed row)
      written =
          first-update (is_row principal_id) (is_unmoved row) (rewritten new sealed) row rows
            (λ _ _. refl) h
          ∙ rw itself refl

  write-Settled :
      (rows : List KeyCustodyShare) (o : Option KeyCustodyShare) (principal_id : Text) (new : Share)
      (sealed : Text) (supersedes : Option Text)
      → read rows principal_id ≡ o
      → decrypt sealed ≡ some new.y
      → Settled rows principal_id new
          (write_share decrypt rows o principal_id new sealed supersedes)
  unfolding write_share
  write-Settled rows none principal_id new sealed supersedes h opens =
      insert-Settled rows principal_id new sealed opens
  write-Settled rows (some row) principal_id new sealed supersedes h opens =
      replace-Settled rows row principal_id new sealed supersedes h opens

module _ (b64decode decrypt : Text → Option Text) (encrypt : Text → Text)
    (opens : (y : Text) → decrypt (encrypt y) ≡ some y) where
  -- Either the request is valid, store_share answers stored, unchanged or replaced, and a
  -- release then returns exactly the share of the request; or it answers rejected or conflict
  -- and the table is as it was. Fernet opens what it sealed.
  pub store_share-release :
      (rows : List KeyCustodyShare) (principal_id : Text) (share : Presented)
      (supersedes : Option Text)
      → let out = store_share b64decode decrypt rows principal_id share encrypt supersedes in
        ((s : Share) × (validate b64decode share ≡ some s)
          × (is_accepted out.1 ≡ true)
          × (release_share decrypt out.0 principal_id ≡ released s))
        ⊎ ((is_accepted out.1 ≡ false) × (out.0 ≡ rows))
  unfolding store_share
  store_share-release rows principal_id share supersedes =
      if-branches P (not (valid_principal principal_id)) (λ _. inr (refl, refl))
        (λ _. go (validate b64decode share) refl)
    where
      P : List KeyCustodyShare × Outcome → Type 0
      P out =
          ((s : Share) × (validate b64decode share ≡ some s)
            × (is_accepted out.1 ≡ true)
            × (release_share decrypt out.0 principal_id ≡ released s))
          ⊎ ((is_accepted out.1 ≡ false) × (out.0 ≡ rows))

      go :
          (o : Option Share)
          → validate b64decode share ≡ o
          → P (store_valid b64decode decrypt rows principal_id o encrypt supersedes)
      go none e = inr (refl, refl)
      go (some s) e =
          elim (write-Settled decrypt rows (read rows principal_id) principal_id s (encrypt s.y)
            supersedes refl (opens s.y)) [
              | inl (taken, back) ↦ inl (s, e, taken, back)
              | inr same ↦ inr same
            ]
