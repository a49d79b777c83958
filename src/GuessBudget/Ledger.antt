-- ===== src/GuessBudget/Ledger.antt =====
-- services/guess_budget.py, the store: `_Ledger`, `_live`, `_drop`, `_make_room`, `_spent` and
-- `_charge`. Time is a number of microseconds. A method returns the new store.
pub mod Wf
pub mod Room
pub mod Upkeep
use agience_origin.Base.{
  ℕ, zero, suc, ◌+◌, ◌-◌, ◌%◌, Bool, true, false, not, ◌&&◌, Option, none, some, List, [], ◌∷◌,
  ◌++◌, Text, ◌==◌, text_eq, nat_eq, ltb, leb, if◌then◌else◌, length, get_elem?, set, keep, last_n,
  last?, init, get, put, pop,
}

-- `entries` is the ordered dictionary, the key written least recently first.
pub record Ledger : Type 0 where
  pub entries : List (Text × List ℕ)
  pub slots : List Text
  pub slot_of : List (Text × ℕ)

abbrev pub empty : Ledger
empty = record { entries = []; slots = []; slot_of = [] }

abbrev pub max_tracked_identifiers : ℕ
max_tracked_identifiers = 10000

-- `s > now - window`, without the subtraction
abbrev pub is_live : ℕ → ℕ → ℕ → Bool
is_live now window s = ltb now (s + window)

abbrev pub live : List ℕ → ℕ → ℕ → List ℕ
live stamps now window = keep (is_live now window) stamps

abbrev pub is_empty {ℓ} : {A : Type ℓ} → List A → Bool
is_empty [] = true
is_empty (x ∷ xs) = false

-- `store.slots.pop()`, and the last key moved into the hole. An empty list of slots, which raises
-- in the source, is left alone.
abbrev pub refill : Text → ℕ → Option Text → Ledger → Ledger
refill key i none store = store
refill key i (some last) store =
    if last == key
    then record store { slots = init store.slots; slot_of = pop key store.slot_of }
    else record store {
      slots = set (init store.slots) i last;
      slot_of = put last i (pop key store.slot_of);
    }

abbrev pub drop_slot : Text → Option ℕ → Ledger → Ledger
drop_slot key none store = store
drop_slot key (some i) store = refill key i (last? store.slots) store

unfoldable pub drop : Ledger → Text → Ledger
drop store key =
    drop_slot key (get key store.slot_of) (record store { entries = pop key store.entries })

-- The key at a slot; there is always one where the loop looks.
abbrev pub drop_at : Ledger → Option Text → Ledger
drop_at store none = store
drop_at store (some key) = drop store key

-- One round: a dead key at the front goes first, else a key drawn at random. `draw` is the random
-- number, which `randrange` brings into range.
abbrev pub room_step : ℕ → Ledger → List (Text × List ℕ) → ℕ → ℕ → Ledger
room_step draw store [] window now = store
room_step draw store ((front, stamps) ∷ rest) window now =
    if is_empty (live stamps now window)
    then drop store front
    else drop_at store (get_elem? store.slots (draw % length store.slots))

-- `while store and len(store) >= _MAX_TRACKED_IDENTIFIERS`, on fuel
unfoldable pub make_room : ℕ → (ℕ → ℕ) → Ledger → ℕ → ℕ → Ledger
make_room zero rng store window now = store
make_room (suc fuel) rng store window now =
    let next =
      make_room fuel rng (room_step (rng fuel) store store.entries window now) window now in
    if not (is_empty store.entries) && leb max_tracked_identifiers (length store.entries)
    then next
    else store

-- One round drops one key, so the number of keys is fuel enough.
abbrev pub fit : (ℕ → ℕ) → Ledger → ℕ → ℕ → Ledger
fit rng store window now = make_room (length store.entries) rng store window now

abbrev pub spent_held : Ledger → Text → List ℕ → List ℕ → ℕ → Ledger × Bool
spent_held store key held stamps cap =
    if is_empty stamps
    then (drop store key, false)
    else if length stamps == length held
    then (store, leb cap (length stamps))
    else (record store { entries = put key stamps store.entries }, leb cap (length stamps))

abbrev pub spent_of : Ledger → Text → Option (List ℕ) → ℕ → ℕ → ℕ → Ledger × Bool
spent_of store key none window cap now = (store, false)
spent_of store key (some held) window cap now = spent_held store key held (live held now window) cap

unfoldable pub spent : Ledger → Text → ℕ → ℕ → ℕ → Ledger × Bool
spent store key window cap now = spent_of store key (get key store.entries) window cap now

abbrev pub or_empty : Option (List ℕ) → List ℕ
or_empty none = []
or_empty (some stamps) = stamps

-- `if key not in store`: make room, and give the key the next slot.
abbrev pub track : (ℕ → ℕ) → Ledger → Text → Option (List ℕ) → ℕ → ℕ → Ledger
track rng store key (some held) window now = store
track rng store key none window now =
    let roomy = fit rng store window now in
    record roomy {
      slot_of = put key (length roomy.slots) roomy.slot_of;
      slots = roomy.slots ++ key ∷ [];
    }

-- `store[key] = stamps; store.move_to_end(key)`
abbrev pub write_last : Ledger → Text → List ℕ → Ledger
write_last store key stamps = record store {
  entries = pop key (put key stamps store.entries) ++ (key, stamps) ∷ [];
}

unfoldable pub charge : (ℕ → ℕ) → Ledger → Text → ℕ → ℕ → ℕ → Ledger
charge rng store key window cap now =
    let held = get key store.entries in
    let stamps = live (or_empty held) now window in
    write_last (track rng store key held window now) key (last_n cap (stamps ++ now ∷ []))
