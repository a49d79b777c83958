-- ===== src/GuessBudget/Ledger/Room.antt =====
-- `_make_room`: it ends below the bound, and only takes keys away.
use agience_origin.Base.{
  ℕ, zero, suc, ◌%◌, ◌≤◌, ◌<◌, ◌≡◌, refl, ap, ◌∙◌, ◌⊎◌, inl, inr, true, not, ◌&&◌, Option, none,
  some, List, [], ◌∷◌, Text, eq_refl, text_eq, nat_eq, arith, leb, is_some, length, get_elem?, get,
  get-pop, get_elem?-some, Bool-cases,
}
use agience_origin.GuessBudget.Ledger.{
  Ledger, live, is_empty, drop, drop_at, room_step, make_room, max_tracked_identifiers,
}
use agience_origin.GuessBudget.Ledger.Wf.{IsWf, drop-IsWf, entries-drop, length-drop}

drop_at-IsWf : (s : Ledger) (o : Option Text) → IsWf s → IsWf (drop_at s o)
drop_at-IsWf s none w = w
drop_at-IsWf s (some k) w = drop-IsWf s w k

room_step-IsWf :
    (draw : ℕ) (s : Ledger) (l : List (Text × List ℕ)) (window now : ℕ)
    → IsWf s
    → IsWf (room_step draw s l window now)
room_step-IsWf draw s [] window now w = w
room_step-IsWf draw s ((front, stamps) ∷ rest) window now w =
    elim (Bool-cases (is_empty (live stamps now window))) [
      | inl e ↦ rw (e, room_step) (drop-IsWf s w front)
      | inr e ↦ rw (e, room_step) (drop_at-IsWf s (get_elem? s.slots (draw % length s.slots)) w)
    ]

-- There is a key at the slot drawn.
drawn_slot :
    (s : Ledger) (draw : ℕ)
    → IsWf s
    → 0 < length s.entries
    → (k : Text) × (get_elem? s.slots (draw % length s.slots) ≡ some k)
      × (is_some (get k s.entries) ≡ true)
drawn_slot s draw w h =
    let some_slot : 0 < length s.slots = omega (arith, w.counted) in
    let (k, e) = get_elem?-some s.slots (draw % length s.slots) (omega arith) in
    (k, e, w.tracked k ∙ ap is_some (w.slot_indexed k _ e))

-- A round on a ledger with keys drops exactly one.
length-room_step :
    (draw : ℕ) (s : Ledger) (l : List (Text × List ℕ)) (window now : ℕ)
    → IsWf s
    → s.entries ≡ l
    → 0 < length s.entries
    → suc (length (room_step draw s l window now).entries) ≡ length s.entries
unfolding get
length-room_step draw s [] window now w e h = absurd (omega (arith, ap length e))
length-room_step draw s ((front, stamps) ∷ rest) window now w e h =
    elim (Bool-cases (is_empty (live stamps now window))) [
      | inl dead ↦
          rw (dead, room_step) (length-drop s front w (rw (e, get) (ground (arith, eq_refl front))))
      | inr alive ↦
          let (k, at_k, tracked) = drawn_slot s draw w h in
          rw (alive, at_k) (length-drop s k w tracked)
    ]

-- A key is left with what it had, or is gone.
abbrev pub Left : Text → Ledger → Ledger → Type 0
Left k before after = (get k after.entries ≡ get k before.entries) ⊎ (get k after.entries ≡ none)

drop-Left : (k key : Text) (s : Ledger) → Left k s (drop s key)
drop-Left k key s = ground (arith, entries-drop s key, get-pop key k s.entries)

drop_at-Left : (k : Text) (s : Ledger) (o : Option Text) → Left k s (drop_at s o)
drop_at-Left k s none = inl refl
drop_at-Left k s (some key) = drop-Left k key s

room_step-Left :
    (k : Text) (draw : ℕ) (s : Ledger) (l : List (Text × List ℕ)) (window now : ℕ)
    → Left k s (room_step draw s l window now)
room_step-Left k draw s [] window now = inl refl
room_step-Left k draw s ((front, stamps) ∷ rest) window now =
    elim (Bool-cases (is_empty (live stamps now window))) [
      | inl e ↦ rw (e, room_step) (drop-Left k front s)
      | inr e ↦ rw (e, room_step) (drop_at-Left k s (get_elem? s.slots (draw % length s.slots)))
    ]

module _ (rng : ℕ → ℕ) (window now : ℕ) where
  pub make_room-IsWf : (fuel : ℕ) (s : Ledger) → IsWf s → IsWf (make_room fuel rng s window now)
  unfolding make_room
  make_room-IsWf zero s w = w
  make_room-IsWf (suc fuel) s w =
      elim (Bool-cases
        (not (is_empty s.entries) && leb max_tracked_identifiers (length s.entries))) [
          | inl e ↦
              rw e (make_room-IsWf fuel _ (room_step-IsWf (rng fuel) s s.entries window now w))
          | inr e ↦ rw e w
        ]

  pub make_room-Left :
      (k : Text) (fuel : ℕ) (s : Ledger) → Left k s (make_room fuel rng s window now)
  unfolding make_room
  make_room-Left k zero s = inl refl
  make_room-Left k (suc fuel) s = ground (
    arith,
    make_room-Left k fuel (room_step (rng fuel) s s.entries window now),
    room_step-Left k (rng fuel) s s.entries window now,
  )

  -- With room for one more key nothing is dropped.
  pub make_room_roomy :
      (fuel : ℕ) (s : Ledger)
      → length s.entries < max_tracked_identifiers
      → make_room fuel rng s window now ≡ s
  unfolding make_room
  make_room_roomy zero s h = refl
  make_room_roomy (suc fuel) s h = ground arith

  not_empty : (l : List (Text × List ℕ)) → 0 < length l → not (is_empty l) ≡ true
  not_empty [] h = absurd (omega arith)
  not_empty (x ∷ l) h = refl

  -- On a well-formed ledger, with fuel for as many rounds as it has keys, the loop ends by its
  -- test: it leaves room for one more key.
  pub make_room_bound :
      (fuel : ℕ) (s : Ledger)
      → IsWf s
      → length s.entries ≤ fuel
      → length (make_room fuel rng s window now).entries < max_tracked_identifiers
  unfolding make_room
  make_room_bound zero s w h = omega arith
  make_room_bound (suc fuel) s w h =
      elim (Bool-cases (leb max_tracked_identifiers (length s.entries))) [
        | inl full ↦
            let next = room_step (rng fuel) s s.entries window now in
            rw (not_empty s.entries (ground arith), full)
              (make_room_bound fuel next (room_step-IsWf (rng fuel) s s.entries window now w) (
                omega (
                  arith,
                  length-room_step (rng fuel) s s.entries window now w refl (ground arith),
                )))
        | inr roomy ↦ ground arith
      ]
