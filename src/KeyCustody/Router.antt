-- ===== src/KeyCustody/Router.antt =====
-- routers/key_share_router.py. The caller is what `get_auth` verified, and the claims are those of
-- the verified token.
use agience_origin.Base.{
  ℕ, ◌+◌, Bool, true, false, not, ◌&&◌, Option, none, some, List, ◌++◌, Text, codes, ◌==◌, text_eq,
  leb, if◌then◌else◌, length,
}
use agience_origin.KeyCustody.Shares.{
  KeyCustodyShare, Share, Presented, Outcome, share_rejected, share_conflict, Release, absent,
  unreadable, released, valid_principal, release_share, store_share,
}
use agience_origin.KeyCustody.Tokens.{KeyCustodyNonce, spend_token}

pub record AuthContext : Type 0 where
  pub principal_type : Text
  pub principal_id : Text
  pub user_id : Option Text
  pub actor : Option Text

-- A claim of another type is none.
pub record Claims : Type 0 where
  pub iat : Option ℕ
  pub exp : Option ℕ
  pub jti : Option Text
  pub htm : Option Text
  pub htu : Option Text
  pub principal_id : Option Text

pub record Custody : Type 0 where
  pub shares : List KeyCustodyShare
  pub nonces : List KeyCustodyNonce

pub data Response : Type 0 where
  http_error : ℕ → Response
  share_absent : Text → Response
  share_body : Text → Share → Response
  outcome_body : Text → Outcome → Response

abbrev pub max_token_ttl : ℕ
max_token_ttl = 60

abbrev pub is_some_text : Option Text → Text → Bool
is_some_text none t = false
is_some_text (some s) t = s == t

abbrev pub is_mantle : AuthContext → Bool
is_mantle auth =
    auth.principal_type == codes "service"
    && (auth.principal_id == codes "mantle" && elim auth.actor [ none ↦ true | some a ↦ false ])

abbrev pub path_of : Text → Text
path_of principal_id = codes "/internal/key-shares/" ++ principal_id

-- exp - iat is at most the longest lifetime
abbrev pub is_short : Option ℕ → Option ℕ → Bool
is_short (some iat) (some exp) = leb exp (iat + max_token_ttl)
is_short _ _ = false

abbrev pub is_jti_shape : Option Text → Bool
is_jti_shape none = false
is_jti_shape (some jti) = leb 8 (length jti) && leb (length jti) 128

-- What the token names is the call: its method, its path and its principal.
abbrev pub is_for : Claims → Text → Text → Bool
is_for claims method principal_id =
    is_short claims.iat claims.exp
    && (is_jti_shape claims.jti
        && (is_some_text claims.htm method
            && (is_some_text claims.htu (path_of principal_id)
                && is_some_text claims.principal_id principal_id)))

abbrev pub spend_claims : Custody → Option Text → Option ℕ → ℕ → Custody × Bool
spend_claims s (some jti) (some exp) now =
    let out = spend_token s.nonces jti exp now in (record s { nonces = out.0 }, out.1)
spend_claims s _ _ now = (s, false)

-- Nothing, or the status of the refusal.
unfoldable pub bound : Custody → Text → Text → Claims → ℕ → Custody × Option ℕ
bound s method principal_id claims now =
    if not (valid_principal principal_id)
    then (s, some 400)
    else if not (is_for claims method principal_id)
    then (s, some 401)
    else let out = spend_claims s claims.jti claims.exp now in
      (out.0, if out.1 then none else some 401)

module _ (decrypt : Text → Option Text) where
  abbrev pub release_response : Text → Release → Response
  release_response principal_id absent = share_absent principal_id
  release_response principal_id unreadable = http_error 503
  release_response principal_id (released share) = share_body principal_id share

  abbrev pub get_bound : Text → Custody × Option ℕ → Custody × Response
  get_bound principal_id (s, some status) = (s, http_error status)
  get_bound principal_id (s, none) =
      (s, release_response principal_id (release_share decrypt s.shares principal_id))

  unfoldable pub get_share : Custody → AuthContext → Text → Claims → ℕ → Custody × Response
  get_share s auth principal_id claims now =
      if not (is_mantle auth)
      then (s, http_error 403)
      else get_bound principal_id (bound s (codes "GET") principal_id claims now)

module _ (b64decode decrypt : Text → Option Text) (encrypt : Text → Text) where
  abbrev pub store_response : Text → Outcome → Response
  store_response principal_id share_rejected = http_error 400
  store_response principal_id share_conflict = http_error 409
  store_response principal_id outcome = outcome_body principal_id outcome

  abbrev pub put_bound : Text → Presented → Option Text → Custody × Option ℕ → Custody × Response
  put_bound principal_id share supersedes (s, some status) = (s, http_error status)
  put_bound principal_id share supersedes (s, none) =
      let out = store_share b64decode decrypt s.shares principal_id share encrypt supersedes in
      (record s { shares = out.0 }, store_response principal_id out.1)

  unfoldable pub put_share :
      Custody → AuthContext → Text → Claims → Presented → Option Text → ℕ → Custody × Response
  put_share s auth principal_id claims share supersedes now =
      if not (is_mantle auth)
      then (s, http_error 403)
      else put_bound principal_id share supersedes (bound s (codes "PUT") principal_id claims now)
