-- ===== src/Credentials/Examples.antt =====
-- A rotation at concrete data: a hash is the secret itself.
use agience_origin.Base.{
  ◌≡◌, refl, sym, ap, ◌∙◌, inl, inr, Bool, true, false, Option, none, some, List, [], ◌∷◌, Text,
  codes, ◌==◌, text_eq, text_beq, get, In,
}
use agience_origin.KeyCustody.Router.{AuthContext}
use agience_origin.Settings.Cache.{SettingsCache, get_setting}
use agience_origin.Credentials.Table.{ServerCredential, get_by_client_id}
use agience_origin.Credentials.Routes.{rotated, require_operator, rotate_server_credential}
use agience_origin.Credentials.Grant.{
  Step, updating, granting, invalid_client, grant_begin, grant_finish, run,
}
use agience_origin.Credentials.Rotation.{IsKeyed, rotated_secret-refused}

abbrev same_text : Text → Text → Bool
same_text secret hash = secret == hash

abbrev as_given : Text → Option Text
as_given s = some s

abbrev server : ServerCredential
server = record {
  id = codes "c1";
  client_id = codes "seraph";
  name = codes "Seraph";
  secret_hash = codes "old";
  authority = codes "localhost";
  host_id = codes "h1";
  server_id = codes "s1";
  user_id = codes "p1";
  scopes = [];
  resource_filters = [];
  is_active = true;
  last_used_at = none;
  last_rotated_at = none;
  created_time = 1;
  modified_time = 1;
}

abbrev cache : SettingsCache
cache = record { values = (codes "platform.operator_id", codes "p1") ∷ []; secrets = [] }

abbrev operator : AuthContext
operator = record {
  principal_type = codes "user";
  principal_id = codes "p1";
  user_id = some (codes "p1");
  actor = none;
}

only_server : (c : ServerCredential) → In c (server ∷ []) → server ≡ c
only_server c (inl e) = e
only_server c (inr k) = absurd k

server-IsKeyed : IsKeyed (server ∷ [])
server-IsKeyed c d m k e =
    ap (λ (x : ServerCredential). x.id) (sym (only_server c m) ∙ only_server d k)

rotates :
    (rotate_server_credential cache operator
      (server ∷ [])
      (codes "seraph")
      (codes "new")
      (codes "new")
      5).1
    ≡ rotated (codes "new")
unfolding rotate_server_credential require_operator get_setting get_by_client_id get text_beq
rotates = refl

-- The row is switched off and on again, and a grant that began before the rotation ends.
abbrev steps : List Step
steps =
    updating cache operator (codes "seraph")
      (record {
        name = none;
        scopes = none;
        resource_filters = none;
        is_active = some (some false);
      })
      6
    ∷ updating cache operator (codes "seraph")
        (record {
          name = none;
          scopes = none;
          resource_filters = none;
          is_active = some (some true);
        })
        7
    ∷ granting (some (record { id = codes "c1"; secret_hash = codes "old" })) (codes "old") 8
    ∷ []

rotated_secret-refused_example :
    let creds =
      run as_given
        (codes "localhost")
        same_text
        (rotate_server_credential cache operator
          (server ∷ [])
          (codes "seraph")
          (codes "new")
          (codes "new")
          5).0
        steps in
    grant_finish same_text creds (grant_begin creds (codes "seraph")) (codes "old") 9
    ≡ (creds, invalid_client)
unfolding text_beq
rotated_secret-refused_example =
    rotated_secret-refused same_text (codes "seraph") (codes "old") as_given (codes "localhost")
      cache operator (server ∷ []) (codes "new") (codes "new") (codes "new") 5 steps
      (run as_given (codes "localhost") same_text
        (rotate_server_credential cache operator (server ∷ []) (codes "seraph") (codes "new")
          (codes "new") 5).0
        steps)
      9 server-IsKeyed refl rotates (tt, (tt, (tt, tt)))
