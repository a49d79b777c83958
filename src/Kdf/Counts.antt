-- ===== src/Kdf/Counts.antt =====
-- The counters against the requests that are open.
use agience_origin.Base.{
  ℕ, zero, suc, ◌+◌, ◌-◌, ◌≤◌, ◌≡◌, refl, subst, ap, ◌∙◌, Bool, false, Option, none, some, List, [],
  ◌∷◌, Text, text_eq, ◌==◌, eq_iff, arith, leb, if◌then◌else◌, if-branches, length, get_elem?,
  count_where, get, put, get-put, get-pop,
}
use agience_origin.Kdf.Admission.{
  Admission, Answer, admitted, or_zero, count_at, in_flight_per_client, most_admitted, admit_client,
  kdf_admit, one_less, kdf_release,
}
use agience_origin.Kdf.Requests.{
  Event, arrive, leave, Server, at_rest, remove_at, arrived, ended, step, run,
}

abbrev pub is_from : Text → Option Text → Bool
is_from key none = false
is_from key (some k) = k == key

abbrev pub open_from : Text → List (Option Text) → ℕ
open_from key ks = count_where (is_from key) ks

pub record Counts (threads : ℕ) (v : Server) : Type 0 where
  pub total : v.counters.admitted ≡ length v.open_requests
  pub capped : length v.open_requests ≤ most_admitted threads
  pub per_client : (key : Text) → count_at v.counters key ≡ open_from key v.open_requests
  pub client_capped : (key : Text) → open_from key v.open_requests ≤ in_flight_per_client

at_rest-Counts : (threads : ℕ) → Counts threads at_rest
unfolding get
at_rest-Counts threads = record {
  total = refl;
  capped = omega arith;
  per_client = λ key. refl;
  client_capped = λ key. omega arith;
}

or_zero-put :
    (key k : Text) (n : ℕ) (m : List (Text × ℕ))
    → or_zero (get k (put key n m)) ≡ (if key == k then n else or_zero (get k m))
or_zero-put key k n m = rw (get-put key k n m) (ground arith)

or_zero-one_less :
    (key k : Text) (m : List (Text × ℕ))
    → or_zero (get k (one_less key (or_zero (get key m)) m))
      ≡ (if key == k then or_zero (get key m) - 1 else or_zero (get k m))
or_zero-one_less key k m =
    if-branches
      (λ x. or_zero (get k x) ≡ (if key == k then or_zero (get key m) - 1 else or_zero (get k m)))
      (leb (or_zero (get key m)) 1) (λ few. rw (get-pop key k m) (ground arith))
      (λ many. rw (get-put key k (or_zero (get key m) - 1) m) (ground arith))

length-remove_at :
    (ks : List (Option Text)) (i : ℕ) (key : Option Text)
    → get_elem? ks i ≡ some key
    → length (remove_at ks i) + 1 ≡ length ks
length-remove_at [] i key h = absurd (cc)
length-remove_at (k ∷ ks) zero key h = omega arith
length-remove_at (k ∷ ks) (suc i) key h = omega (arith, length-remove_at ks i key h)

open_from-remove_at :
    (ks : List (Option Text)) (i : ℕ) (key : Option Text) (client : Text)
    → get_elem? ks i ≡ some key
    → open_from client (remove_at ks i) + (if is_from client key then 1 else 0)
      ≡ open_from client ks
open_from-remove_at [] i key client h = absurd (cc)
open_from-remove_at (k ∷ ks) zero key client h =
    let same : k ≡ key = cc in
    subst
      (λ x. open_from client ks + (if is_from client x then 1 else 0) ≡ open_from client (k ∷ ks))
      same (omega arith)
open_from-remove_at (k ∷ ks) (suc i) key client h =
    omega (arith, open_from-remove_at ks i key client h)

ended-Counts :
    (threads : ℕ) (v : Server) (i : ℕ) (o : Option (Option Text))
    → get_elem? v.open_requests i ≡ o
    → Counts threads v
    → Counts threads (ended v i o)
unfolding kdf_release
ended-Counts threads v i none h c = c
ended-Counts threads v i (some none) h c = record {
  total = omega (arith, c.total, length-remove_at v.open_requests i none h);
  capped = omega (arith, c.capped, length-remove_at v.open_requests i none h);
  per_client =
      λ key. omega (arith, c.per_client key, open_from-remove_at v.open_requests i none key h);
  client_capped =
      λ key. omega (arith, c.client_capped key, open_from-remove_at v.open_requests i none key h);
}
ended-Counts threads v i (some (some client)) h c = record {
  total = omega (arith, c.total, length-remove_at v.open_requests i (some client) h);
  capped = omega (arith, c.capped, length-remove_at v.open_requests i (some client) h);
  per_client = λ key. rw (or_zero-one_less client key v.counters.in_flight) (
      ground (
        arith,
        eq_iff client key,
        c.per_client key,
        c.per_client client,
        open_from-remove_at v.open_requests i (some client) key h,
      ));
  client_capped = λ key.
      ground
        (arith, c.client_capped key, open_from-remove_at v.open_requests i (some client) key h);
}

module _ (threads : ℕ) (is_shared_client_network : Text → Bool) (client_network : Text → Text) where
  admit_client-Counts :
      (v : Server) (client : Text)
      → leb (most_admitted threads) v.counters.admitted ≡ false
      → Counts threads v
      → Counts threads (arrived v (admit_client v.counters client))
  admit_client-Counts v client room c =
      if-branches (λ out. Counts threads (arrived v out))
        (leb in_flight_per_client (count_at v.counters client)) (λ _. c)
        (λ few. record {
          total = omega (arith, c.total);
          capped = ground (arith, c.total);
          per_client = λ key.
              rw (or_zero-put client key (count_at v.counters client + 1) v.counters.in_flight)
                (ground (arith, eq_iff client key, c.per_client key, c.per_client client));
          client_capped = λ key. ground (
            arith,
            eq_iff client key,
            c.client_capped key,
            c.per_client key,
            c.per_client client,
          );
        })

  kdf_admit-Counts :
      (v : Server) (client : Option Text)
      → Counts threads v
      → Counts threads
          (arrived v (kdf_admit threads is_shared_client_network client_network v.counters client))
  unfolding kdf_admit
  kdf_admit-Counts v client c =
      if-branches (λ out. Counts threads (arrived v out))
        (leb (most_admitted threads) v.counters.admitted) (λ _. c)
        (λ room.
          if-branches (λ out. Counts threads (arrived v out)) (is_shared_client_network _)
            (λ _. record {
              total = omega (arith, c.total);
              capped = ground (arith, c.total);
              per_client = λ key. omega (arith, c.per_client key);
              client_capped = λ key. omega (arith, c.client_capped key);
            })
            (λ _. admit_client-Counts v (client_network _) room c))

  step-Counts :
      (v : Server) (e : Event)
      → Counts threads v
      → Counts threads (step threads is_shared_client_network client_network v e)
  unfolding step
  step-Counts v (arrive client) c = kdf_admit-Counts v client c
  step-Counts v (leave i) c = ended-Counts threads v i (get_elem? v.open_requests i) refl c

  run_from-Counts :
      (v : Server) (es : List Event)
      → Counts threads v
      → Counts threads (run threads is_shared_client_network client_network v es)
  unfolding run
  run_from-Counts v [] c = c
  run_from-Counts v (e ∷ es) c =
      run_from-Counts (step threads is_shared_client_network client_network v e) es
        (step-Counts v e c)

  -- After any requests came and went: the counter of admitted requests is the number of those
  -- open, which is at most five for each thread; and each client network's counter is the number
  -- of its open requests, which is at most four.
  pub run-Counts :
      (es : List Event)
      → Counts threads (run threads is_shared_client_network client_network at_rest es)
  run-Counts es = run_from-Counts at_rest es (at_rest-Counts threads)

  client_admits_at_zero :
      (s : Admission) (client : Text)
      → ((key : Text) → count_at s key ≡ 0)
      → (key : Option Text) × ((admit_client s client).1 ≡ admitted key)
  client_admits_at_zero s client zero_each =
      if-branches (λ (out : Admission × Answer). (key : Option Text) × (out.1 ≡ admitted key))
        (leb in_flight_per_client (count_at s client))
        (λ full. absurd (ground (arith, zero_each client))) (λ _. (some client, refl))

  admits_at_zero :
      (s : Admission) (client : Option Text)
      → 1 ≤ threads
      → s.admitted ≡ 0
      → ((key : Text) → count_at s key ≡ 0)
      → (key : Option Text) × ((kdf_admit threads is_shared_client_network client_network s
            client).1
          ≡ admitted key)
  unfolding kdf_admit
  admits_at_zero s client h zero_all zero_each =
      let P = λ (out : Admission × Answer). (key : Option Text) × (out.1 ≡ admitted key) in
      if-branches P (leb (most_admitted threads) s.admitted) (λ full. absurd (ground arith))
        (λ _.
          if-branches P (is_shared_client_network _) (λ _. (none, refl))
            (λ _. client_admits_at_zero s (client_network _) zero_each))

  -- No slot is ever lost: whatever came and went, once no request is open the next one is
  -- admitted, from whichever client, provided that there is a thread.
  pub idle-admits :
      (es : List Event) (client : Option Text)
      → 1 ≤ threads
      → (run threads is_shared_client_network client_network at_rest es).open_requests ≡ []
      → (key : Option Text) × ((kdf_admit threads is_shared_client_network client_network
            (run threads is_shared_client_network client_network at_rest es).counters
            client).1
          ≡ admitted key)
  idle-admits es client h over =
      let v = run threads is_shared_client_network client_network at_rest es in
      let c = run-Counts es in
      admits_at_zero v.counters client h (c.total ∙ ap length over)
        (λ key. c.per_client key ∙ ap (open_from key) over)
