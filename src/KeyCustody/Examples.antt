-- ===== src/KeyCustody/Examples.antt =====
-- The theorems on key custody at concrete data, with a cipher and a base64 that change nothing.
use agience_origin.Base.{
  ◌≡◌, refl, ◌⊎◌, true, false, Option, none, some, List, [], ◌∷◌, Text, codes, text_beq, last?,
  init, All, ◌≤◌, ◌+◌, arith,
}
use agience_origin.KeyCustody.Shares.{
  KeyCustodyShare, Share, Presented, stored, released, valid_principal, read, validate,
  insert_share, write_share, store_share, release_share,
}
use agience_origin.KeyCustody.Tokens.{Presentation, spend_token, spend_all}
use agience_origin.KeyCustody.Kept.{Survives, is_accepted, write_share-Survives}
use agience_origin.KeyCustody.RoundTrip.{store_share-release}
use agience_origin.KeyCustody.Tokens.{spend_token_once}
use agience_origin.KeyCustody.Router.{
  AuthContext, Claims, Custody, share_body, outcome_body, is_mantle, bound, get_share, put_share,
}
use agience_origin.KeyCustody.Guard.{Opened, get_share-Opened, put_share-get_share}

abbrev plain : Text → Option Text
plain y = some y

abbrev same : Text → Text
same y = y

abbrev kcv_a : Text
kcv_a = codes "0123456789abcdef0123456789abcdef"

abbrev new_share : Share
new_share = record { x = 2; y = codes "c2hhcmU="; kcv = kcv_a }

abbrev sent : Presented
sent = record { x = some 2; y = some (codes "c2hhcmU="); kcv = some kcv_a }

abbrev row_b : KeyCustodyShare
row_b = record {
  principal_id = codes "p-b";
  x = 2;
  y_sealed = codes "b3RoZXI=";
  kcv = codes "ffff456789abcdef0123456789abcdef";
}

read-row_b : read (row_b ∷ []) (codes "p-b") ≡ some row_b
unfolding read text_beq
read-row_b = refl

write_share-Survives_example :
    Survives
      (codes "p-a")
      (codes "p-b")
      new_share
      none
      row_b
      (write_share plain
        (row_b ∷ [])
        (read [] (codes "p-a"))
        (codes "p-a")
        new_share
        new_share.y
        none).0
write_share-Survives_example =
    write_share-Survives plain [] (row_b ∷ []) (codes "p-a") (codes "p-b") new_share new_share.y
      none row_b read-row_b

plain_opens : (y : Text) → plain (same y) ≡ some y
plain_opens y = refl

store_share-release_example :
    ((s : Share) × (validate plain sent ≡ some s)
      × (is_accepted (store_share plain plain (row_b ∷ []) (codes "p-a") sent same none).1 ≡ true)
      × (release_share plain
            (store_share plain plain (row_b ∷ []) (codes "p-a") sent same none).0
            (codes "p-a")
          ≡ released s))
    ⊎ ((is_accepted (store_share plain plain (row_b ∷ []) (codes "p-a") sent same none).1 ≡ false)
        × ((store_share plain plain (row_b ∷ []) (codes "p-a") sent same none).0 ≡ row_b ∷ []))
store_share-release_example =
    store_share-release plain plain same plain_opens (row_b ∷ []) (codes "p-a") sent none

abbrev between_times : List Presentation
between_times = record { jti = codes "other-jti"; expires_at = 1050; now = 1010 } ∷ []

first_time : (spend_token [] (codes "jti-0001") 1060 1000).1 ≡ true
unfolding spend_token
first_time = refl

in_time : All (λ (c : Presentation). c.now ≤ 1060 + 5) between_times
in_time = (omega arith, tt)

later_in_time : 1065 ≤ 1060 + 5
later_in_time = omega arith

spend_token_once_example :
    (spend_token
      (spend_all (spend_token [] (codes "jti-0001") 1060 1000).0 between_times)
      (codes "jti-0001")
      1060
      1065).1
    ≡ false
spend_token_once_example =
    spend_token_once (codes "jti-0001") 1060 [] 1000 between_times 1060 1065 first_time in_time
      later_in_time

abbrev mantle : AuthContext
mantle = record {
  principal_type = codes "service";
  principal_id = codes "mantle";
  user_id = none;
  actor = none;
}

abbrev token : Text → Text → Claims
token method jti = record {
  iat = some 1000;
  exp = some 1060;
  jti = some jti;
  htm = some method;
  htu = some (codes "/internal/key-shares/p-a");
  principal_id = some (codes "p-a");
}

abbrev custody : Custody
custody = record {
  shares =
      record { principal_id = codes "p-a"; x = 2; y_sealed = codes "c2hhcmU="; kcv = kcv_a }
      ∷ row_b
      ∷ [];
  nonces = [];
}

released_a :
    (get_share plain custody mantle (codes "p-a") (token (codes "GET") (codes "jti-0001")) 1001).1
    ≡ share_body (codes "p-a") new_share
unfolding get_share bound valid_principal text_beq spend_token release_share read last? init
released_a = refl

get_share-Opened_example :
    (is_mantle mantle ≡ true)
    × Opened custody
        (codes "GET")
        (codes "p-a")
        (token (codes "GET") (codes "jti-0001"))
        1001
        (bound custody (codes "GET") (codes "p-a") (token (codes "GET") (codes "jti-0001")) 1001).0
    × (release_share plain custody.shares (codes "p-a") ≡ released new_share)
get_share-Opened_example =
    get_share-Opened plain custody mantle (codes "p-a") (token (codes "GET") (codes "jti-0001"))
      1001 (codes "p-a") new_share released_a

abbrev no_custody : Custody
no_custody = record { shares = []; nonces = [] }

put_a :
    (put_share plain plain same no_custody mantle
      (codes "p-a")
      (token (codes "PUT") (codes "jti-0001"))
      sent
      none
      1001).1
    ≡ outcome_body (codes "p-a") stored
unfolding put_share bound valid_principal text_beq spend_token store_share validate write_share
    insert_share read last? init
put_a = refl

read_bound :
    (bound
      (put_share plain plain same no_custody mantle
        (codes "p-a")
        (token (codes "PUT") (codes "jti-0001"))
        sent
        none
        1001).0
      (codes "GET")
      (codes "p-a")
      (token (codes "GET") (codes "jti-0002"))
      1002).1
    ≡ none
unfolding put_share bound valid_principal text_beq spend_token store_share validate write_share
    insert_share read last? init
read_bound = refl

is_mantle-mantle : is_mantle mantle ≡ true
unfolding text_beq
is_mantle-mantle = refl

put_share-get_share_example :
    (v : Share) × (validate plain sent ≡ some v)
    × ((get_share plain
          (put_share plain plain same no_custody mantle
            (codes "p-a")
            (token (codes "PUT") (codes "jti-0001"))
            sent
            none
            1001).0
          mantle
          (codes "p-a")
          (token (codes "GET") (codes "jti-0002"))
          1002).1
        ≡ share_body (codes "p-a") v)
put_share-get_share_example =
    put_share-get_share plain plain same plain_opens no_custody mantle (codes "p-a") (codes "p-a")
      (token (codes "PUT") (codes "jti-0001")) sent none 1001 stored mantle
      (token (codes "GET") (codes "jti-0002")) 1002 put_a is_mantle-mantle read_bound
