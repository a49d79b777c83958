-- ===== src/Kdf/Requests.antt =====
-- Requests that come and go: each that was admitted is open until it ends, when what it was given
-- is released, as the `finally` of `kdf_admission` in services/dependencies.py does.
use agience_origin.Base.{ℕ, zero, suc, Bool, Option, none, some, List, [], ◌∷◌, Text, get_elem?}
use agience_origin.Kdf.Admission.{
  Admission, idle, Answer, refused, admitted, kdf_admit, kdf_release,
}

pub data Event : Type 0 where
  -- a request from a client
  arrive : Option Text → Event
  -- the end of the open request at this place
  leave : ℕ → Event

pub record Server : Type 0 where
  pub counters : Admission
  pub open_requests : List (Option Text)

abbrev pub at_rest : Server
at_rest = record { counters = idle; open_requests = [] }

abbrev pub remove_at : List (Option Text) → ℕ → List (Option Text)
remove_at [] i = []
remove_at (k ∷ ks) zero = ks
remove_at (k ∷ ks) (suc i) = k ∷ remove_at ks i

abbrev pub arrived : Server → Admission × Answer → Server
arrived v (s, refused status) = v
arrived v (s, admitted key) = record { counters = s; open_requests = key ∷ v.open_requests }

abbrev pub ended : Server → ℕ → Option (Option Text) → Server
ended v i none = v
ended v i (some key) = record {
  counters = kdf_release v.counters key;
  open_requests = remove_at v.open_requests i;
}

module _ (threads : ℕ) (is_shared_client_network : Text → Bool) (client_network : Text → Text) where
  unfoldable pub step : Server → Event → Server
  step v (arrive client) =
      arrived v (kdf_admit threads is_shared_client_network client_network v.counters client)
  step v (leave i) = ended v i (get_elem? v.open_requests i)

  unfoldable pub run : Server → List Event → Server
  run v [] = v
  run v (e ∷ es) = run (step v e) es
