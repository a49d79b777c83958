-- ===== src/Kdf/Examples.antt =====
-- The theorems on admission at concrete data.
use agience_origin.Base.{
  ◌≤◌, ◌≡◌, refl, Bool, Option, none, some, List, [], ◌∷◌, Text, codes, text_eq, text_beq, ◌==◌,
  arith, get, put, pop,
}
use agience_origin.Kdf.Admission.{admitted, kdf_admit, kdf_release}
use agience_origin.Kdf.Requests.{Event, arrive, leave, at_rest, step, run}
use agience_origin.Kdf.Counts.{Counts, run-Counts, idle-admits}

abbrev is_proxy : Text → Bool
is_proxy c = c == codes "10.0.0.1"

abbrev same_network : Text → Text
same_network c = c

-- Five requests of one client, of which the fifth is turned away, one through the proxy, two ends.
abbrev some_events : List Event
some_events =
    arrive (some (codes "1.2.3.4"))
    ∷ arrive (some (codes "1.2.3.4"))
    ∷ arrive (some (codes "1.2.3.4"))
    ∷ arrive (some (codes "1.2.3.4"))
    ∷ arrive (some (codes "1.2.3.4"))
    ∷ arrive (some (codes "10.0.0.1"))
    ∷ leave 0
    ∷ leave 2
    ∷ []

run-Counts_example : Counts 2 (run 2 is_proxy same_network at_rest some_events)
run-Counts_example = run-Counts 2 is_proxy same_network some_events

abbrev two_and_gone : List Event
two_and_gone = arrive none ∷ arrive (some (codes "10.0.0.1")) ∷ leave 1 ∷ leave 0 ∷ []

all_gone : (run 2 is_proxy same_network at_rest two_and_gone).open_requests ≡ []
unfolding run step kdf_admit kdf_release text_beq get put pop
all_gone = refl

has_threads : 1 ≤ 2
has_threads = omega arith

idle-admits_example :
    (key : Option Text) × ((kdf_admit 2 is_proxy same_network
        (run 2 is_proxy same_network at_rest two_and_gone).counters
        (some (codes "1.2.3.4"))).1
      ≡ admitted key)
idle-admits_example =
    idle-admits 2 is_proxy same_network two_and_gone (some (codes "1.2.3.4")) has_threads all_gone
