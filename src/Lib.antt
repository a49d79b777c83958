-- ===== src/Lib.antt =====
-- Agience Origin is the identity and authority service: it signs people in (password, mailed code,
-- passkey, federated provider), says which account a sign-in belongs to, delivers authorization codes
-- to the clients it admits, keeps the platform's settings, and holds one share of each of Mantle's
-- master keys. This library models the parts that decide who gets in and how often
-- somebody may guess.
--
-- The parts, and the files of the repository that they model:
--
--   GuessBudget  src/origin/services/guess_budget.py. GuessBudget: the derivation of the caps
--                from the stated tolerances. Ledger: _Ledger (entries, slots, slot index), _drop,
--                _make_room, _charge, _spent. Attempts: check and charge in one step, and histories
--                of attempts and of credentials that proved correct.
--   Otp          src/origin/services/otp_service.py and src/origin/db/otp_codes.py. Codes: the
--                table and each statement over it. Service: issue_otp, verify_otp and
--                cleanup_expired, cut where another request may run. History: the steps of any
--                requests in any order. It takes its cap from GuessBudget's derivation.
--   Person       src/origin/services/person_service.py, src/origin/db/persons.py and
--                src/origin/db/person_identities.py. Store: the two tables and their UNIQUE
--                constraints. Service: every operation that writes them. Histories: calls of the
--                service, rolled back where they raise. Otp takes the sign-in that ends its
--                verification as a parameter; in the code it is get_or_create_user_by_email.
--   KeyCustody   src/origin/services/key_shares.py, src/origin/models/key_custody.py and
--                src/origin/routers/key_share_router.py. Shares: store_share and release_share.
--                Tokens: spend_token. Router: the two routes and their guards, as the code chains
--                them.
--   Kdf          src/origin/services/auth_service.py, kdf_admit and kdf_release, with the release
--                in src/origin/services/dependencies.py, kdf_admission.
--   Passkey      src/origin/db/passkey_challenges.py, src/origin/db/passkey_credentials.py and
--                src/origin/services/passkey_service.py. Challenges: the table and its
--                statements. Login: verify_authentication, step by step. Register:
--                verify_registration and the other statements over credentials.
--   OAuth        src/origin/routers/auth_router.py. Exchange: _prune_auth_cache and the part of
--                _grant_authorization_code that spends a code; the lookup of the person that comes
--                next is Person's. Redirect: is_client_redirect_allowed and
--                redirect_uri_matches_registered of src/origin/services/auth_service.py. Clients,
--                Metadata and Register: src/origin/db/oauth_clients.py and register_client. Flow:
--                authorize. SignIn: authorize_federate, auth_callback and
--                _complete_local_signin, which writes the local identity through Person's
--                table. Steps: these routes as steps of one process, cut where they await.
--   Reset        src/origin/routers/auth_router.py, password_reset_check and
--                password_reset_confirm with the functions they call, and
--                src/origin/models/password_reset.py. The new hash is written by Person's
--                set_password.
--   Password     src/origin/routers/auth_router.py, password_login and authorize_local_password,
--                each with its own copy of the gates, as in the source. It charges GuessBudget's ledger, reads and re-hashes
--                in Person's table, and ends in OAuth's _complete_local_signin.
--   Mail         src/origin/services/guess_budget.py, mail_sends_exhausted and record_mail_send, with
--                _mail_send_admitted of src/origin/routers/auth_router.py: three caps in one of
--                GuessBudget's ledgers, derived from Otp's cap.
--   Settings     src/origin/services/platform_settings_service.py and
--                src/origin/db/platform_settings.py. Keys: which keys are reserved or secret.
--                Cache: the table, the cache, and set_value, set_many and load_all. Admin:
--                update_settings of src/origin/routers/system_router.py, the guard of the
--                operator, and the oracle's routes of src/origin/routers/oracle_router.py.
--   Credentials  src/origin/db/server_credentials.py, src/origin/routers/server_credentials_router.py
--                and _grant_client_credentials of src/origin/routers/auth_router.py. Table: the
--                statements. Routes: the operator's routes. Grant: the grant and the steps of all
--                of them over one table. The guard reads the operator's id from Settings' cache.
--   Policy       src/origin/services/auth_service.py, is_person_allowed and
--                email_verification_required.
--   Base         Texts, lists and dictionaries over the native numbers, and tables of rows with
--                the statements over them.
--
-- Texts are lists of code points, and strip and lower treat the ASCII characters. Times are
-- numbers: microseconds or seconds as the part says, read from a clock that is an argument. A
-- random draw and a fresh uuid are arguments as well. A probability that the code
-- holds as a float is a double, rounded as IEEE 754 says; any other ratio is a fraction of natural numbers. The operations on persons take the allow-list as an argument.
-- bcrypt, SHA-256, Fernet, UUID parsing, base64, webauthn, fnmatch, urlparse, authlib and the
-- reading of client networks are parameters, and a theorem that needs something of them says so. _make_room runs on fuel, as
-- many rounds as there are keys, which is proved to be enough; the rounding of a product of two
-- numbers of 53 bits halves it at most 64 times, which is enough as well; every other function
-- recurs on its data.
--
-- Not modelled: the tokens that a grant mints, refresh and the delegation routes; the options and
-- routes of passkeys; set-up routes; the texts and the sending of mail;
-- configuration, migrations and pages; logging everywhere.
mod Base
pub mod GuessBudget
pub mod Otp
pub mod Person
pub mod KeyCustody
pub mod Kdf
pub mod Passkey
pub mod OAuth
pub mod Policy
pub mod Settings
pub mod Reset
pub mod Password
pub mod Mail
pub mod Credentials
