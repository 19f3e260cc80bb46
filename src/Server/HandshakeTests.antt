-- ===== src/Server/HandshakeTests.antt =====
-- The start of a connection that a client with the default account makes.
use gomq.Prelude.{◌≡◌, refl, [], ◌∷◌, ◌++◌, Text, codes, ok, err, text_beq, arith}
use gomq.Amqp.Octets.{get_be}
use gomq.Amqp.Framer.{Reader}
use gomq.Auth.Sasl.{no_tls, default_users}
use gomq.Delivery.Tests.{platform}
use gomq.Server.Tests.{session}
use gomq.Server.Handshake.{
  Handshaker, memory_authenticator, new_handshaker, negotiate, verify, authenticator_error,
}
use gomq.Server.HandshakeLaws.{Started, negotiate-Started}
use gomq.Server.PlainAuth.{HasNoNull, plain_response, verify-plain_response}

-- Start-Ok with PLAIN, Tune-Ok with 100 channels, and Open-Ok.
abbrev greeting : Text
greeting = codes "AMQP" ++ 0 ∷ 0 ∷ 9 ∷ 1 ∷ []

abbrev start_ok : Text
start_ok =
    (1 ∷ 0 ∷ 0 ∷ 0 ∷ 0 ∷ 0 ∷ 33 ∷ 0 ∷ 10 ∷ 0 ∷ 11 ∷ 0 ∷ 0 ∷ 0 ∷ 0 ∷ 0 ∷ 0 ∷ 0 ∷ 5 ∷ [])
    ++ codes "PLAIN"
    ++ (0 ∷ 0 ∷ 0 ∷ 12 ∷ [])
    ++ plain_response (codes "guest") (codes "guest")
    ++ 0xCE ∷ []

abbrev tune_ok : Text
tune_ok =
    1 ∷ 0 ∷ 0 ∷ 0 ∷ 0 ∷ 0 ∷ 12 ∷ 0 ∷ 10 ∷ 0 ∷ 31 ∷ 0 ∷ 100 ∷ 0 ∷ 0 ∷ 16 ∷ 0 ∷ 0 ∷ 0 ∷ 0xCE ∷ []

abbrev open_ok : Text
open_ok = 1 ∷ 0 ∷ 0 ∷ 0 ∷ 0 ∷ 0 ∷ 5 ∷ 0 ∷ 10 ∷ 0 ∷ 41 ∷ 0 ∷ 0xCE ∷ []

abbrev client : Reader
client = record { buf_size = 4096; pending = greeting ++ start_ok ++ tune_ok ++ open_ok }

abbrev handshaker : Handshaker
handshaker = new_handshaker session client no_tls (memory_authenticator default_users)

negotiate-client : (negotiate platform.float_conv handshaker).1 ≡ ok tt
unfolding negotiate new_handshaker default_users memory_authenticator get_be text_beq
negotiate-client = refl

negotiate-Started_example :
    Started (memory_authenticator default_users) no_tls (negotiate platform.float_conv handshaker).0
negotiate-Started_example =
    negotiate-Started platform.float_conv session client no_tls (memory_authenticator default_users)
      negotiate-client

guest-HasNoNull : HasNoNull (codes "guest")
guest-HasNoNull = (omega arith, (omega arith, (omega arith, (omega arith, (omega arith, tt)))))

verify-plain_response_example :
    verify handshaker (codes "PLAIN") (plain_response (codes "guest") (codes "guest"))
    ≡ elim (handshaker.auth (codes "guest") (codes "guest")) [
      | err e ↦ err (authenticator_error e)
      | ok x ↦ ok (codes "guest")
    ]
verify-plain_response_example =
    verify-plain_response handshaker (codes "guest") (codes "guest") guest-HasNoNull guest-HasNoNull
      (omega arith)
