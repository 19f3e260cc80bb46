-- ===== src/Auth/Sasl.antt =====
-- internal/auth/sasl.go, amqplain.go and external.go: the SASL mechanisms and their registry.
use gomq.Prelude.{
  not, List, [], ◌∷◌, ◌++◌, Text, codes, length, get_or, Option, none, some, Result, ok, err, ◌>>=◌,
  ◌==◌, nat_eq, text_eq, ltb, if◌then◌else◌,
}
use gomq.Prelude.GoMap.{GoMap, lookup, insert}

-- What the mechanisms see of a net.Conn: whether it has a TLS state, and the common names of the
-- certificates that its peer presented.
pub data Peer : Type 0 where
  no_tls : Peer
  with_tls : List Text → Peer

pub data SaslError : Type 0 where
  invalid_length invalid_format wrong_credentials not_tls no_certificate empty_name : SaslError

-- The interface Mechanism; Challenge returns nil in each and is never called.
pub record Mechanism : Type 0 where
  pub name : Text
  pub response : Peer → Text → Result SaslError Text

abbrev pub SaslRegistry : Type 0
SaslRegistry = GoMap Text Mechanism

unfoldable pub new_sasl_registry : SaslRegistry
new_sasl_registry = []

unfoldable pub register_mechanism : Mechanism → SaslRegistry → SaslRegistry
unfolding insert
register_mechanism m r = insert m.name m r

unfoldable pub lookup_mechanism : Text → SaslRegistry → Option Mechanism
unfolding lookup
lookup_mechanism name r = lookup name r

-- The loop of Names behind the names that it has written.
unfoldable pub join_names : Text → SaslRegistry → Text
join_names names [] = names
join_names names ((n, _) ∷ r) =
    join_names ((if not (names == []) then names ++ codes " " else names) ++ n) r

unfoldable pub names : SaslRegistry → Text
unfolding join_names
names r = join_names [] r

unfoldable pub peer_certificate_cn : Peer → Result SaslError Text
peer_certificate_cn no_tls = err not_tls
peer_certificate_cn (with_tls []) = err no_certificate
peer_certificate_cn (with_tls (cn ∷ _)) = ok cn

-- The loop of splitNull; `part` is the slice from `start` to the current byte.
unfoldable pub split_from : Text → Text → List Text
split_from part [] = part ∷ []
split_from part (c ∷ cs) =
    let parts = split_from (if c == 0 then [] else part ++ c ∷ []) cs in
    if c == 0 then part ∷ parts else parts

unfoldable pub split_null : Text → List Text
unfolding split_from
split_null b = split_from [] b

-- The user and the password of a response `\x00user\x00pass`.
unfoldable pub user_and_pass : Text → Result SaslError (Text × Text)
unfolding split_null
user_and_pass response =
    let parts = split_null response in
    if ltb (length response) 3
    then err invalid_length
    else if ltb (length parts) 3
    then err invalid_format
    else ok (get_or parts 1 [], get_or parts 2 [])

abbrev pub Users : Type 0
Users = GoMap Text Text

-- The test that AMQPLAIN and the MemoryAuthenticator make on their maps of users.
unfoldable pub knows : Users → Text → Text → Result SaslError Text
unfolding lookup
knows users user pass = elim (lookup user users) [
  | none ↦ err wrong_credentials
  | some expect ↦ if expect == pass then ok user else err wrong_credentials
]

-- NewAMQPLAIN and NewMemoryAuthenticator begin with one account.
unfoldable pub default_users : Users
default_users = (codes "guest", codes "guest") ∷ []

unfoldable pub amqplain_response : Users → Text → Result SaslError Text
unfolding user_and_pass knows
amqplain_response users response = do (user, pass) ← user_and_pass response; knows users user pass

unfoldable pub amqplain : Users → Mechanism
unfolding amqplain_response
amqplain users = record {
  name = codes "AMQPLAIN";
  response = λ peer response. amqplain_response users response;
}

unfoldable pub add_user : Text → Text → Users → Users
unfolding insert
add_user user pass users = insert user pass users

unfoldable pub external_response : Peer → Result SaslError Text
unfolding peer_certificate_cn
external_response peer = do
  cn ← peer_certificate_cn peer
  if cn == [] then err empty_name else ok cn

unfoldable pub external : Mechanism
unfolding external_response
external = record { name = codes "EXTERNAL"; response = λ peer response. external_response peer }
