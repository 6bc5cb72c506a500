-- ===== src/Agent/Tests.antt =====
-- A stream to an agent with a secret.
use localup.Base.{
  ℕ, true, ◌≡◌, ◌↔◌, none, some, if◌then◌else◌, ◌==◌, nat_eq, list_eq, Text, codes, Result, ok, err,
}
use localup.Control.Admission.{JwtClaims}
use localup.Agent.Stream.{
  reverse_connect, delivered, AgentStream, handle_reverse_stream, IsAuthorized,
  handle_reverse_stream_iff,
}

abbrev validate : Text → Text → Result Text JwtClaims
validate secret token =
    if token == secret
    then ok (record { token_type = none; user_id = none })
    else err (codes "bad signature")

abbrev open_stream : AgentStream
open_stream = record { opened = true; sent = true; delivery = delivered }

handle_reverse_stream_iff_example :
    (handle_reverse_stream validate
        (some (codes "key"))
        (codes "10.0.0.5:5432")
        (codes "t")
        (codes "10.0.0.5:5432")
        (some (codes "key"))
        open_stream
        (reverse_connect (codes "t") 3 (codes "10.0.0.5:5432"))
      ≡ ok (codes "10.0.0.5:5432"))
    ↔ ((stream_id : ℕ) × (reverse_connect (codes "t") 3 (codes "10.0.0.5:5432")
          ≡ reverse_connect (codes "t") stream_id (codes "10.0.0.5:5432"))
        × (true ≡ true)
        × (true ≡ true)
        × (delivered ≡ delivered)
        × IsAuthorized validate (some (codes "key")) (some (codes "key"))
        × (codes "10.0.0.5:5432" ≡ codes "10.0.0.5:5432")
        × (codes "10.0.0.5:5432" ≡ codes "10.0.0.5:5432"))
handle_reverse_stream_iff_example =
    handle_reverse_stream_iff validate (some (codes "key")) (codes "10.0.0.5:5432") (codes "t")
      (codes "10.0.0.5:5432") (some (codes "key")) open_stream
      (reverse_connect (codes "t") 3 (codes "10.0.0.5:5432")) (codes "10.0.0.5:5432")
