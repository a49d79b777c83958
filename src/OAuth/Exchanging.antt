-- ===== src/OAuth/Exchanging.antt =====
-- An exchange only takes codes away.
use agience_origin.Base.{
  ℕ, not, Option, none, some, List, Text, ◌==◌, text_eq, if-branches, get, is_some,
}
use agience_origin.OAuth.Exchange.{
  AuthData, code_stamp, Grant, granted, http_error, del_code, spend_code, grant_found,
  prune_auth_cache, is_set, verifier_challenge, text_of, is_expired,
}
use agience_origin.OAuth.Flow.{request_stamp}
use agience_origin.OAuth.Admitted.{Values, pop-Values, prune-Values}

module _ (s256 : Text → Text) where
  -- A code that is presented leaves entries that were there.
  module _ (P : AuthData → Type 0) (code : Text) where
    abbrev KeptCodes : List (Text × AuthData) × Grant → Type 0
    KeptCodes out = Values P out.0

    del-Kept :
        (m : List (Text × AuthData)) (next : Grant) → Values P m → KeptCodes (del_code m code next)
    del-Kept m next h =
        if-branches KeptCodes (is_some (get code m)) (λ _. pop-Values P code m h) (λ _. h)

    spend-Kept :
        (m : List (Text × AuthData)) (d : AuthData) (verifier : Option Text)
        → Values P m
        → KeptCodes (spend_code s256 m d code verifier)
    spend-Kept m d verifier h =
        if-branches KeptCodes (is_set d.code_challenge)
          (λ _.
            if-branches KeptCodes (not (is_set verifier)) (λ _. h)
              (λ _.
                if-branches KeptCodes
                  (not (verifier_challenge s256 d (text_of verifier) == text_of d.code_challenge))
                  (λ _. h) (λ _. del-Kept m (granted d) h)))
          (λ _. del-Kept m (granted d) h)

    pub grant-Kept :
        (m : List (Text × AuthData)) (o : Option AuthData) (redirect_uri client_id : Text)
        (verifier : Option Text) (now later : ℕ)
        → Values P m
        → KeptCodes (grant_found s256 m o code redirect_uri client_id verifier now later)
    grant-Kept m none redirect_uri client_id verifier now later h = h
    grant-Kept m (some d) redirect_uri client_id verifier now later h =
        let left = prune_auth_cache now m in
        let k : Values P left = prune-Values P now m h in
        if-branches KeptCodes (not (client_id == d.client_id)) (λ _. k)
          (λ _.
            if-branches KeptCodes (not (redirect_uri == d.redirect_uri)) (λ _. k)
              (λ _.
                if-branches KeptCodes (is_expired later d) (λ _. del-Kept left (http_error 400) k)
                  (λ _. spend-Kept left d verifier k)))
