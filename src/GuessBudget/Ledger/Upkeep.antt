-- ===== src/GuessBudget/Ledger/Upkeep.antt =====
-- `_spent` and `_charge`: what they leave under each key, and that they keep the ledger well
-- formed and within its bound.
use agience_origin.Base.{
  ℕ, ◌≤◌, ◌<◌, ◌≡◌, refl, ap, inl, inr, false, Option, none, some, List, [], ◌∷◌, ◌++◌, Text, ◌==◌,
  eq_iff, eq_refl, text_eq, nat_eq, arith, leb, if◌then◌else◌, is_some, length, last_n, get, put,
  pop, get-put, get-pop, put-Distinct, pop-Distinct, pop_absent, length-pop, length-put,
  length-append, pop-put, append-Distinct, get-pop-append, get_elem?-append, get_elem?-lt,
  Option-cases, Bool-cases, keep_all,
}
use agience_origin.GuessBudget.Ledger.{
  Ledger, live, is_live, is_empty, spent, spent_of, charge, track, write_last, fit, or_empty,
  max_tracked_identifiers,
}
use agience_origin.GuessBudget.Ledger.Wf.{IsWf, drop-IsWf, entries-drop, length-drop}
use agience_origin.GuessBudget.Ledger.Room.{Left, make_room-IsWf, make_room-Left, make_room_bound}

-- A key's stamps after a read at `now`.
abbrev pub pruned : Option (List ℕ) → ℕ → ℕ → Option (List ℕ)
pruned none window now = none
pruned (some held) window now =
    if is_empty (live held now window) then none else some (live held now window)

module _ (s : Ledger) (key : Text) (window cap now : ℕ) where
  put_pruned-IsWf :
      (held stamps : List ℕ)
      → IsWf s
      → get key s.entries ≡ some held
      → IsWf (record s { entries = put key stamps s.entries })
  put_pruned-IsWf held stamps w e = record {
    distinct = put-Distinct key stamps s.entries w.distinct;
    tracked = λ k. ground (arith, get-put key k stamps s.entries, w.tracked k, eq_iff key k);
    slot_held = w.slot_held;
    slot_indexed = w.slot_indexed;
    counted = ground (arith, length-put key stamps s.entries, w.counted);
  }

  spent_of-IsWf :
      (o : Option (List ℕ))
      → IsWf s
      → get key s.entries ≡ o
      → IsWf (spent_of s key o window cap now).0
  spent_of-IsWf none w e = w
  spent_of-IsWf (some held) w e = elim (Bool-cases (is_empty (live held now window))) [
    | inl dead ↦ rw dead (drop-IsWf s w key)
    | inr alive ↦ elim (Bool-cases (length (live held now window) == length held)) [
      | inl same ↦ rw (alive, same) w
      | inr fewer ↦ rw (alive, fewer) (put_pruned-IsWf held (live held now window) w e)
    ]
  ]

  pub spent-IsWf : IsWf s → IsWf (spent s key window cap now).0
  unfolding spent
  spent-IsWf w = spent_of-IsWf (get key s.entries) w refl

  spent_of-get :
      (o : Option (List ℕ)) (j : Text)
      → get key s.entries ≡ o
      → get j (spent_of s key o window cap now).0.entries
        ≡ (if key == j then pruned o window now else get j s.entries)
  spent_of-get none j e = ground (arith, eq_iff key j)
  spent_of-get (some held) j e = ground (
    arith,
    entries-drop s key,
    get-pop key j s.entries,
    get-put key j (live held now window) s.entries,
    keep_all (is_live now window) held,
    eq_iff key j,
  )

  -- A read prunes the stamps of its key and leaves the others.
  pub get-spent :
      (j : Text)
      → get j (spent s key window cap now).0.entries
        ≡ (if key == j then pruned (get key s.entries) window now else get j s.entries)
  unfolding spent
  get-spent j = spent_of-get (get key s.entries) j refl

  spent_of-answer :
      (o : Option (List ℕ))
      → 0 < cap
      → (spent_of s key o window cap now).1 ≡ leb cap (length (live (or_empty o) now window))
  spent_of-answer none h = ground arith
  spent_of-answer (some []) h = ground arith
  spent_of-answer (some (x ∷ held)) h = ground arith

  -- The answer counts the stamps that are inside the window.
  pub spent-answer :
      0 < cap
      → (spent s key window cap now).1
        ≡ leb cap (length (live (or_empty (get key s.entries)) now window))
  unfolding spent
  spent-answer h = spent_of-answer (get key s.entries) h

  pub length-spent-le : IsWf s → length (spent s key window cap now).0.entries ≤ length s.entries
  unfolding spent
  length-spent-le w = elim (Option-cases (get key s.entries)) [
    | inl e ↦ rw (e, spent_of) (omega arith)
    | inr (held, e) ↦
        rw (e, spent_of)
          (ground (arith, length-drop s key w, length-put key (live held now window) s.entries))
  ]

module _ (rng : ℕ → ℕ) (s : Ledger) (key : Text) (window cap now : ℕ) where
  abbrev pub roomy : Ledger
  roomy = fit rng s window now

  roomy-get : get key s.entries ≡ none → get key roomy.entries ≡ none
  roomy-get h = ground (arith, make_room-Left rng window now key (length s.entries) s)

  write_tracked-IsWf :
      (held stamps : List ℕ)
      → IsWf s
      → get key s.entries ≡ some held
      → IsWf (write_last s key stamps)
  write_tracked-IsWf held stamps w e = record {
    distinct = rw (pop-put key stamps s.entries) (
        append-Distinct key stamps (pop key s.entries) (pop-Distinct key s.entries w.distinct)
          (ground (arith, get-pop key key s.entries, eq_refl key)));
    tracked = λ k. ground (
      arith,
      pop-put key stamps s.entries,
      get-pop-append key k stamps s.entries,
      w.tracked k,
      eq_iff key k,
    );
    slot_held = w.slot_held;
    slot_indexed = w.slot_indexed;
    counted = rw (pop-put key stamps s.entries) (
        omega (
          arith,
          length-append (pop key s.entries) ((key, stamps) ∷ []),
          length-pop key s.entries w.distinct (ap is_some e),
          w.counted,
        ));
  }

  write_new-IsWf :
      (r : Ledger) (stamps : List ℕ)
      → IsWf r
      → get key r.entries ≡ none
      → IsWf (
          write_last
            (record r { slot_of = put key (length r.slots) r.slot_of; slots = r.slots ++ key ∷ [] })
            key
            stamps)
  write_new-IsWf r stamps w e = record {
    distinct =
        rw (pop-put key stamps r.entries, pop_absent key r.entries e)
          (append-Distinct key stamps r.entries w.distinct e);
    tracked = λ k. ground (
      arith,
      pop-put key stamps r.entries,
      get-pop-append key k stamps r.entries,
      get-put key k (length r.slots) r.slot_of,
      w.tracked k,
    );
    slot_held = λ k i h. ground (
      arith,
      get-put key k (length r.slots) r.slot_of,
      get_elem?-append r.slots key i,
      w.slot_held k i,
      get_elem?-lt r.slots i {a = k},
      eq_iff key k,
    );
    slot_indexed = λ k i h. ground (
      arith,
      get-put key k (length r.slots) r.slot_of,
      get_elem?-append r.slots key i,
      w.slot_indexed k i,
      w.tracked k,
      eq_iff key k,
    );
    counted =
        rw (pop-put key stamps r.entries, pop_absent key r.entries e)
          (omega (
            arith,
            length-append r.entries ((key, stamps) ∷ []),
            length-append r.slots (key ∷ []),
            w.counted,
          ));
  }

  pub charge-IsWf : IsWf s → IsWf (charge rng s key window cap now)
  unfolding charge
  charge-IsWf w = elim (Option-cases (get key s.entries)) [
    | inl e ↦
        rw (e, track)
          (write_new-IsWf roomy _ (make_room-IsWf rng window now (length s.entries) s w)
            (roomy-get e))
    | inr (held, e) ↦ rw (e, track) (write_tracked-IsWf held _ w e)
  ]

  -- The charged key holds the live stamps and the new one, the newest `cap` of them.
  pub get-charge_self :
      get key (charge rng s key window cap now).entries
      ≡ some (last_n cap (live (or_empty (get key s.entries)) now window ++ now ∷ []))
  unfolding charge
  get-charge_self = ground (
    arith,
    pop-put key (last_n cap (live (or_empty (get key s.entries)) now window ++ now ∷ []))
        (track rng s key (get key s.entries) window now).entries,
    get-pop-append key key (last_n cap (live (or_empty (get key s.entries)) now window ++ now ∷ []))
        (track rng s key (get key s.entries) window now).entries,
    eq_refl key,
  )

  -- Any other key keeps its stamps, unless it was dropped to make room.
  pub get-charge_ne : (j : Text) → (key == j) ≡ false → Left j s (charge rng s key window cap now)
  unfolding charge
  get-charge_ne j ne = ground (
    arith,
    pop-put key (last_n cap (live (or_empty (get key s.entries)) now window ++ now ∷ []))
        (track rng s key (get key s.entries) window now).entries,
    get-pop-append key j (last_n cap (live (or_empty (get key s.entries)) now window ++ now ∷ []))
        (track rng s key (get key s.entries) window now).entries,
    make_room-Left rng window now j (length s.entries) s,
  )

  -- No charge takes the ledger past its bound.
  pub length-charge-le :
      IsWf s
      → length s.entries ≤ max_tracked_identifiers
      → length (charge rng s key window cap now).entries ≤ max_tracked_identifiers
  unfolding charge
  length-charge-le w h = elim (Option-cases (get key s.entries)) [
    | inl e ↦
        rw (e, track)
          (ground (
            arith,
            pop-put key (last_n cap ([] ++ now ∷ [])) roomy.entries,
            pop_absent key roomy.entries (roomy-get e),
            length-append roomy.entries ((key, last_n cap ([] ++ now ∷ [])) ∷ []),
            make_room_bound rng window now (length s.entries) s w,
          ))
    | inr (held, e) ↦
        rw (e, track)
          (ground (
            arith,
            pop-put key (last_n cap (live held now window ++ now ∷ [])) s.entries,
            length-append (pop key s.entries)
                ((key, last_n cap (live held now window ++ now ∷ [])) ∷ []),
            length-pop key s.entries w.distinct,
          ))
  ]
