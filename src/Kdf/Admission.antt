-- ===== src/Kdf/Admission.antt =====
-- The counters of open requests. Which network an address belongs to, and whether it is a listed
-- proxy, are parameters; the log lines are left out.
use agience_origin.Base.{
  ℕ, ◌+◌, ◌-◌, ◌*◌, Bool, Option, none, some, List, [], Text, codes, text_eq, leb, if◌then◌else◌,
  get, put, pop,
}

pub record Admission : Type 0 where
  pub admitted : ℕ
  pub in_flight : List (Text × ℕ)

abbrev pub idle : Admission
idle = record { admitted = 0; in_flight = [] }

abbrev pub queue_per_thread : ℕ
queue_per_thread = 4

abbrev pub in_flight_per_client : ℕ
in_flight_per_client = 4

abbrev pub or_zero : Option ℕ → ℕ
or_zero none = 0
or_zero (some n) = n

-- _kdf_in_flight.get(key, 0)
abbrev pub count_at : Admission → Text → ℕ
count_at s key = or_zero (get key s.in_flight)

-- The status of a refusal, or what `kdf_release` is to be given.
pub data Answer : Type 0 where
  refused : ℕ → Answer
  admitted : Option Text → Answer

abbrev client_or_unknown : Option Text → Text
client_or_unknown none = codes "unknown"
client_or_unknown (some []) = codes "unknown"
client_or_unknown (some c) = c

abbrev pub most_admitted : ℕ → ℕ
most_admitted threads = (queue_per_thread + 1) * threads

abbrev pub admit_client : Admission → Text → Admission × Answer
admit_client s key = if leb in_flight_per_client (count_at s key) then (s, refused 429) else (
  record { admitted = s.admitted + 1; in_flight = put key (count_at s key + 1) s.in_flight },
  admitted (some key),
)

module _ (threads : ℕ) (is_shared_client_network : Text → Bool) (client_network : Text → Text) where
  unfoldable pub kdf_admit : Admission → Option Text → Admission × Answer
  kdf_admit s client =
      let peer = client_or_unknown client in
      if leb (most_admitted threads) s.admitted
      then (s, refused 503)
      else if is_shared_client_network peer
      then (record s { admitted = s.admitted + 1 }, admitted none)
      else admit_client s (client_network peer)

-- What is left of a count: it goes when it would be 0.
abbrev pub one_less : Text → ℕ → List (Text × ℕ) → List (Text × ℕ)
one_less key n in_flight = if leb n 1 then pop key in_flight else put key (n - 1) in_flight

unfoldable pub kdf_release : Admission → Option Text → Admission
kdf_release s none = record s { admitted = s.admitted - 1 }
kdf_release s (some key) = record {
  admitted = s.admitted - 1;
  in_flight = one_less key (count_at s key) s.in_flight;
}
