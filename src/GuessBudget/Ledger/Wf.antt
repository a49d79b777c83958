-- ===== src/GuessBudget/Ledger/Wf.antt =====
-- The ledger's three parts agree: its keys are distinct, they are the keys that hold a slot, and
-- the slots and the slot index are inverse to one another.
use agience_origin.Base.{
  ℕ, suc, ◌-◌, ◌<◌, ◌≡◌, refl, sym, inl, inr, true, false, Option, none, some, Text, ◌==◌, eq_iff,
  text_eq, nat_eq, arith, is_some, length, get_elem?, set, last?, init, get, put, pop, Distinct,
  get-put, get-pop, pop-Distinct, pop_absent, length-pop, last?-get_elem?, get_elem?-init,
  get_elem?-lt, get_elem?-some, get_elem?-set, length-init, length-set, Bool-cases, Option-cases,
}
use agience_origin.GuessBudget.Ledger.{Ledger, empty, drop, refill, drop_slot}

pub record IsWf (s : Ledger) : Type 0 where
  pub distinct : Distinct s.entries
  pub tracked : (k : Text) → is_some (get k s.entries) ≡ is_some (get k s.slot_of)
  pub slot_held : (k : Text) (i : ℕ) → get k s.slot_of ≡ some i → get_elem? s.slots i ≡ some k
  pub slot_indexed : (k : Text) (i : ℕ) → get_elem? s.slots i ≡ some k → get k s.slot_of ≡ some i
  pub counted : length s.entries ≡ length s.slots

pub empty-IsWf : IsWf empty
unfolding get
empty-IsWf = record {
  distinct = tt;
  tracked = λ k. refl;
  slot_held = λ k i h. absurd (cc);
  slot_indexed = λ k i h. absurd (cc);
  counted = refl;
}

module _ (s : Ledger) (w : IsWf s) (key : Text) (i : ℕ) (at_i : get key s.slot_of ≡ some i) where
  counted-pop : suc (length (pop key s.entries)) ≡ length s.slots
  counted-pop =
      omega (arith, length-pop key s.entries w.distinct (ground (arith, w.tracked key)), w.counted)

  slot-lt : (k : Text) (j : ℕ) → get k s.slot_of ≡ some j → j < length s.slots
  slot-lt k j h = get_elem?-lt s.slots j (w.slot_held k j h)

  -- The key itself holds the last slot.
  refill_last :
      suc i ≡ length s.slots
      → IsWf (record s {
        entries = pop key s.entries;
        slots = init s.slots;
        slot_of = pop key s.slot_of;
      })
  refill_last e = record {
    distinct = pop-Distinct key s.entries w.distinct;
    tracked = λ k. ground (arith, get-pop key k s.entries, get-pop key k s.slot_of, w.tracked k);
    slot_held = λ k j g. ground (
      arith,
      get-pop key k s.slot_of,
      get_elem?-init s.slots j,
      w.slot_held k j,
      w.slot_held key i,
      slot-lt k j,
      eq_iff key k,
    );
    slot_indexed = λ k j g. ground (
      arith,
      get-pop key k s.slot_of,
      get_elem?-init s.slots j,
      w.slot_indexed k j,
      eq_iff key k,
    );
    counted = omega (arith, counted-pop, length-init s.slots);
  }

  -- Another key holds the last slot, and takes over the slot of the one that goes.
  refill_moved :
      (last : Text)
      → get_elem? s.slots (length s.slots - 1) ≡ some last
      → (last == key) ≡ false
      → IsWf (record s {
        entries = pop key s.entries;
        slots = set (init s.slots) i last;
        slot_of = put last i (pop key s.slot_of);
      })
  refill_moved last h ne = record {
    distinct = pop-Distinct key s.entries w.distinct;
    tracked = λ k. ground (
      arith,
      get-pop key k s.entries,
      get-put last k i (pop key s.slot_of),
      get-pop key k s.slot_of,
      w.tracked k,
      w.slot_indexed last (length s.slots - 1),
      eq_iff last k,
      eq_iff key k,
      eq_iff last key,
    );
    slot_held = λ k j g. ground (
      arith,
      get-put last k i (pop key s.slot_of),
      get-pop key k s.slot_of,
      get_elem?-set (init s.slots) i j last,
      length-init s.slots,
      get_elem?-init s.slots j,
      w.slot_held k j,
      w.slot_held key i,
      slot-lt k j,
      slot-lt key i,
      eq_iff last k,
      eq_iff key k,
    );
    slot_indexed = λ k j g. ground (
      arith,
      get-put last k i (pop key s.slot_of),
      get-pop key k s.slot_of,
      get_elem?-set (init s.slots) i j last,
      length-init s.slots,
      get_elem?-init s.slots j,
      w.slot_indexed k j,
      w.slot_indexed last (length s.slots - 1),
      slot-lt k j,
      eq_iff last k,
      eq_iff key k,
    );
    counted = omega (arith, counted-pop, length-init s.slots, length-set (init s.slots) i last);
  }

module _ (s : Ledger) (w : IsWf s) (key : Text) where
  refill-IsWf :
      (i : ℕ) (last : Option Text)
      → get key s.slot_of ≡ some i
      → get_elem? s.slots (length s.slots - 1) ≡ last
      → IsWf (refill key i last (record s { entries = pop key s.entries }))
  refill-IsWf i none at_i h =
      let lt : i < length s.slots = slot-lt s w key i at_i key i at_i in
      absurd (ground (arith, get_elem?-some s.slots (length s.slots - 1)))
  refill-IsWf i (some last) at_i h = elim (Bool-cases (last == key)) [
    | inl e ↦
        rw (e, refill)
          (refill_last s w key i at_i (
            ground (
              arith,
              w.slot_indexed last (length s.slots - 1),
              eq_iff last key,
              slot-lt s w key i at_i key i at_i,
            )))
    | inr e ↦ rw (e, refill) (refill_moved s w key i at_i last h e)
  ]

  drop_slot-IsWf :
      (i : Option ℕ)
      → get key s.slot_of ≡ i
      → IsWf (drop_slot key i (record s { entries = pop key s.entries }))
  drop_slot-IsWf none h = rw (pop_absent key s.entries (ground (arith, w.tracked key))) w
  drop_slot-IsWf (some i) h = refill-IsWf i (last? s.slots) h (sym (last?-get_elem? s.slots))

  pub drop-IsWf : IsWf (drop s key)
  unfolding drop
  drop-IsWf = drop_slot-IsWf (get key s.slot_of) refl

-- What `drop` leaves of the entries.
refill-entries :
    (key : Text) (i : ℕ) (last : Option Text) (s : Ledger)
    → (refill key i last s).entries ≡ s.entries
refill-entries key i none s = refl
refill-entries key i (some last) s = ground arith

pub entries-drop : (s : Ledger) (key : Text) → (drop s key).entries ≡ pop key s.entries
unfolding drop
entries-drop s key = elim (Option-cases (get key s.slot_of)) [
  | inl e ↦ rw (e, drop_slot) refl
  | inr (i, e) ↦ rw (e, drop_slot) (refill-entries key i (last? s.slots) _)
]

pub length-drop :
    (s : Ledger) (key : Text)
    → IsWf s
    → is_some (get key s.entries) ≡ true
    → suc (length (drop s key).entries) ≡ length s.entries
length-drop s key w h = rw entries-drop (length-pop key s.entries w.distinct h)
