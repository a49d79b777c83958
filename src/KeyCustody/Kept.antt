-- ===== src/KeyCustody/Kept.antt =====
-- What a write to the table of shares leaves there.
use agience_origin.Base.{
  ◌≡◌, refl, sym, ap, ◌∙◌, ◌⊎◌, inl, inr, Bool, true, false, not, ◌&&◌, Option, none, some, List,
  Text, ◌==◌, text_eq, nat_eq, eq_iff, arith, if-branches, Bool-cases, any, first, update_where,
  count_where, first-In, first-append, first-update,
}
use agience_origin.KeyCustody.Shares.{
  KeyCustodyShare, Share, Outcome, stored, unchanged, replaced, is_row, read, share_beq,
  insert_share, is_unmoved, rewritten, is_same_share, replace_share, write_share, names,
}

abbrev pub is_accepted : Outcome → Bool
is_accepted stored = true
is_accepted unchanged = true
is_accepted replaced = true
is_accepted _ = false

-- Somebody's share that is stored, after a write: as it was, or a share of the same key, or one
-- whose key-check value the caller named.
abbrev pub Survives :
    Text → Text → Share → Option Text → KeyCustodyShare → List KeyCustodyShare → Type 0
Survives principal_id q new supersedes r rows =
    (read rows q ≡ some r) ⊎ ((q ≡ principal_id) × ((r.kcv ≡ new.kcv) ⊎ (supersedes ≡ some r.kcv)))

names_sound :
    (supersedes : Option Text) (kcv : Text) → names supersedes kcv ≡ true → supersedes ≡ some kcv
names_sound none kcv h = absurd (cc)
names_sound (some s) kcv h = ap some (sym ((eq_iff kcv s).0 h))

pub share_beq_sound : (s t : Share) → share_beq s t ≡ true → s ≡ t
share_beq_sound s t h =
    let ex : s.x ≡ t.x = ground (arith, eq_iff s.x t.x) in
    let ey : s.y ≡ t.y = ground (arith, eq_iff s.y t.y) in
    let ek : s.kcv ≡ t.kcv = ground (arith, eq_iff s.kcv t.kcv) in
    λ i. record { x = ex i; y = ey i; kcv = ek i }

module _ (decrypt : Text → Option Text) where
  same_key :
      (row r : KeyCustodyShare) (new : Share) (supersedes : Option Text)
      → (not (row.kcv == new.kcv) && not (names supersedes row.kcv)) ≡ false
      → is_unmoved row r ≡ true
      → (r.kcv ≡ new.kcv) ⊎ (supersedes ≡ some r.kcv)
  same_key row r new supersedes h hit =
      let e : r.kcv ≡ row.kcv = ground (arith, eq_iff r.kcv row.kcv) in
      elim (Bool-cases (row.kcv == new.kcv)) [
        | inl k ↦ inl (e ∙ (eq_iff row.kcv new.kcv).0 k)
        | inr k ↦ inr (names_sound supersedes row.kcv (ground arith) ∙ ap some (sym e))
      ]

  replace-Survives :
      (rows : List KeyCustodyShare) (row : KeyCustodyShare) (principal_id q : Text) (new : Share)
      (sealed : Text) (supersedes : Option Text) (r : KeyCustodyShare)
      → row.principal_id ≡ principal_id
      → read rows q ≡ some r
      → Survives principal_id q new supersedes r
          (replace_share decrypt rows row new sealed supersedes).0
  unfolding replace_share read
  replace-Survives rows row principal_id q new sealed supersedes r here h =
      let P =
        λ (out : List KeyCustodyShare × Outcome). Survives principal_id q new supersedes r out.0 in
      if-branches P (is_same_share decrypt row new) (λ _. inl h)
        (λ _.
          if-branches P (not (row.kcv == new.kcv) && not (names supersedes row.kcv)) (λ _. inl h)
            (λ allowed.
              if-branches P (not (count_where (is_unmoved row) rows == 1)) (λ _. inl h)
                (λ _. moved allowed (Bool-cases (is_unmoved row r)))))
    where
      moved :
          (not (row.kcv == new.kcv) && not (names supersedes row.kcv)) ≡ false
          → (is_unmoved row r ≡ true) ⊎ (is_unmoved row r ≡ false)
          → Survives principal_id q new supersedes r
              (update_where (is_unmoved row) (rewritten new sealed) rows)
      moved allowed (inl hit) =
          let (m, mine) = first-In (is_row q) r rows h in
          inr (
            sym ((eq_iff r.principal_id q).0 mine)
                ∙ (eq_iff r.principal_id row.principal_id).0 (ground arith)
                ∙ here,
            same_key row r new supersedes allowed hit,
          )
      moved allowed (inr miss) = inl (
          first-update (is_row q) (is_unmoved row) (rewritten new sealed) r rows (λ _ _. refl) h
          ∙ rw miss refl)

  insert-Survives :
      (rows : List KeyCustodyShare) (principal_id q : Text) (new : Share) (sealed : Text)
      (supersedes : Option Text) (r : KeyCustodyShare)
      → read rows q ≡ some r
      → Survives principal_id q new supersedes r (insert_share rows principal_id new sealed).0
  unfolding insert_share read
  insert-Survives rows principal_id q new sealed supersedes r h =
      if-branches
        (λ (out : List KeyCustodyShare × Outcome). Survives principal_id q new supersedes r out.0)
        (any (is_row principal_id) rows) (λ _. inl h)
        (λ _. inl (first-append (is_row q) r rows _ h))

  -- A share that is stored, whoever's it is, is left as it was by any write, whatever row that
  -- write read at whatever earlier time, unless the write is for the same principal and brings a
  -- share of the same key or names the stored check value in supersedes.
  pub write_share-Survives :
      (earlier rows : List KeyCustodyShare) (principal_id q : Text) (new : Share) (sealed : Text)
      (supersedes : Option Text) (r : KeyCustodyShare)
      → read rows q ≡ some r
      → Survives principal_id q new supersedes r
          (write_share decrypt rows
            (read earlier principal_id)
            principal_id
            new
            sealed
            supersedes).0
  unfolding write_share read
  write_share-Survives earlier rows principal_id q new sealed supersedes r h =
      go (first (is_row principal_id) earlier) refl
    where
      go :
          (o : Option KeyCustodyShare)
          → first (is_row principal_id) earlier ≡ o
          → Survives principal_id q new supersedes r
              (write_share decrypt rows o principal_id new sealed supersedes).0
      go none e = insert-Survives rows principal_id q new sealed supersedes r h
      go (some row) e =
          let (m, mine) = first-In (is_row principal_id) row earlier e in
          replace-Survives rows row principal_id q new sealed supersedes r
            ((eq_iff row.principal_id principal_id).0 mine) h
