-- ===== src/Base/Dict.antt =====
-- Python's `dict` and `OrderedDict` as association lists, in insertion order: a write to a key
-- that is there keeps its place, and a new key goes to the end.
use Prim.Native.Nat.{suc}
use mathlib.Core.Bool.{true}
use mathlib.Core.List.{List, [], ◌∷◌, ◌++◌}
use mathlib.Core.Option.{Option, none, some}
use mathlib.Core.Path.{◌≡◌, refl}
use native.Mathlib.Omega.{arith}
use agience_origin.Base.Tests.{if◌then◌else◌, is_some}
use agience_origin.Base.Equality.{Key, ◌==◌, eq_iff, eq_refl}
use agience_origin.Base.Lists.{length}

module _ {K V : Type 0} ⦃key : Key K⦄ where
  -- d.get(k)
  unfoldable pub get : K → List (K × V) → Option V
  get k [] = none
  get k ((j, v) ∷ m) = if j == k then some v else get k m

  -- d[k] = v
  unfoldable pub put : K → V → List (K × V) → List (K × V)
  put k v [] = (k, v) ∷ []
  put k v ((j, w) ∷ m) = if j == k then (j, v) ∷ m else (j, w) ∷ put k v m

  -- d.pop(k, None)
  unfoldable pub pop : K → List (K × V) → List (K × V)
  pop k [] = []
  pop k ((j, v) ∷ m) = if j == k then pop k m else (j, v) ∷ pop k m

  -- No key stands twice.
  abbrev pub Distinct : List (K × V) → Type 0
  Distinct [] = Unit {0}
  Distinct ((k, v) ∷ m) = (get k m ≡ none) × Distinct m

  pub get-put :
      (k j : K) (v : V) (m : List (K × V))
      → get j (put k v m) ≡ (if k == j then some v else get j m)
  unfolding get put
  get-put k j v [] = refl
  get-put k j v ((i, w) ∷ m) = ground (arith, eq_iff k j, eq_iff i k, eq_iff i j, get-put k j v m)

  pub get-pop : (k j : K) (m : List (K × V)) → get j (pop k m) ≡ (if k == j then none else get j m)
  unfolding get pop
  get-pop k j [] = ground arith
  get-pop k j ((i, w) ∷ m) = ground (arith, eq_iff k j, eq_iff i k, eq_iff i j, get-pop k j m)

  pub get-append :
      (j : K) (m n : List (K × V))
      → get j (m ++ n) ≡ (if is_some (get j m) then get j m else get j n)
  unfolding get
  get-append j [] n = refl
  get-append j ((i, w) ∷ m) n = ground (arith, get-append j m n)

  pub put-Distinct : (k : K) (v : V) (m : List (K × V)) → Distinct m → Distinct (put k v m)
  unfolding put get
  put-Distinct k v [] d = (refl, tt)
  put-Distinct k v ((i, w) ∷ m) d =
      ground (arith, eq_iff k i, eq_iff i k, get-put k i v m, put-Distinct k v m d.1)

  pub pop-Distinct : (k : K) (m : List (K × V)) → Distinct m → Distinct (pop k m)
  unfolding pop
  pop-Distinct k [] d = tt
  pop-Distinct k ((i, w) ∷ m) d =
      ground (arith, eq_iff k i, eq_iff i k, get-pop k i m, pop-Distinct k m d.1)

  -- To drop a key that is not there changes nothing.
  pub pop_absent : (k : K) (m : List (K × V)) → get k m ≡ none → pop k m ≡ m
  unfolding pop get
  pop_absent k [] h = refl
  pop_absent k ((i, w) ∷ m) h = ground (arith, pop_absent k m)

  pub length-pop :
      (k : K) (m : List (K × V))
      → Distinct m
      → is_some (get k m) ≡ true
      → suc (length (pop k m)) ≡ length m
  unfolding pop get
  length-pop k [] d h = ground arith
  length-pop k ((i, w) ∷ m) d h = ground (arith, eq_iff i k, length-pop k m d.1, pop_absent k m)

  pub length-put :
      (k : K) (v : V) (m : List (K × V))
      → length (put k v m) ≡ (if is_some (get k m) then length m else suc (length m))
  unfolding put get
  length-put k v [] = refl
  length-put k v ((i, w) ∷ m) = ground (arith, length-put k v m)

  pub pop-put : (k : K) (v : V) (m : List (K × V)) → pop k (put k v m) ≡ pop k m
  unfolding pop put
  pop-put k v [] = rw (eq_refl k) refl
  pop-put k v ((i, w) ∷ m) = ground (arith, pop-put k v m)

  pub append-Distinct :
      (k : K) (v : V) (m : List (K × V)) → Distinct m → get k m ≡ none → Distinct (m ++ (k, v) ∷ [])
  unfolding get
  append-Distinct k v [] d h = (refl, tt)
  append-Distinct k v ((i, w) ∷ m) d h =
      ground
        (arith, get-append i m ((k, v) ∷ []), append-Distinct k v m d.1, eq_iff i k, eq_iff k i)

  -- A key moved to the end with a new value.
  pub get-pop-append :
      (k j : K) (v : V) (m : List (K × V))
      → get j (pop k m ++ (k, v) ∷ []) ≡ (if k == j then some v else get j m)
  unfolding get
  get-pop-append k j v m =
      ground (arith, get-append j (pop k m) ((k, v) ∷ []), get-pop k j m, eq_iff k j)
