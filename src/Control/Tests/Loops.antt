-- ===== src/Control/Tests/Loops.antt =====
-- Heartbeats, pending requests, generated names and tokens on a few inputs.
use localup.Base.{
  ℕ, ◌+◌, ◌≤◌, ◌≡◌, refl, ◌≢◌, ◌↔◌, ◌⊎◌, true, false, none, some, List, [], ◌∷◌, arith,
  if◌then◌else◌, ◌==◌, nat_eq, list_eq, lookup, Text, codes, Result, ok, err,
}
use localup.Control.Heartbeat.{
  Loop, State, running, Event, tick, receives, message, pong, begin, Peer, client, agent, step,
}
use localup.Control.Heartbeat
use localup.Control.Heartbeat.Rounds.{Reaches, at_start, onward, Reaches-sent, outstanding, run}
use localup.Control.Pending.{PendingRequests, respond, is_dropped}
use localup.Control.Pending
use localup.Control.Pending.Delivery.{Call, registers, responds, respond-run}
use localup.Control.Pending.Delivery
use localup.Control.Endpoints.{DomainContext}
use localup.Control.Domains.{Provider, generate_subdomain}
use localup.Control.Domains.Names.{generate_subdomain-differs}
use localup.Control.Admission.{
  JwtClaims, AuthToken, Database, active, validate_auth_token, is_custom_domain_registered,
}
use localup.Control.Admission.Tokens.{IsGranted, validate_auth_token_iff}
use localup.Control.Admission.Domains.{HasActiveParent, is_custom_domain_registered_iff}
use localup.Router.Wildcard.{extract_parent_wildcard}

-- The loop after a ping at time 100
abbrev pinged : Loop
pinged = record { start = 100; next_tick = 110; waiting_for_pong = true; pong_deadline = 105 }

abbrev ponged : Loop
ponged = record { start = 100; next_tick = 110; waiting_for_pong = false; pong_deadline = 105 }

ping_sent : step client 100 (begin 100) (tick true) ≡ some (running pinged)
unfolding step begin Heartbeat.after_ping
ping_sent = refl

pong_received : step client 101 pinged (receives (message pong true)) ≡ some (running ponged)
unfolding step Heartbeat.receive Heartbeat.receive_client
pong_received = refl

one_round : Reaches client (begin 100) ponged 1 1
one_round =
    onward 101 (receives (message pong true)) (onward 100 (tick true) at_start ping_sent)
      pong_received

Reaches-sent_example : 1 ≤ 1 + outstanding ponged
Reaches-sent_example = Reaches-sent client 100 ponged 1 1 one_round

abbrev one_event : List (ℕ × Event)
one_event = (100, tick true) ∷ []

abbrev empty_requests : PendingRequests Text
empty_requests = Pending.new

abbrev between : List (Call Text)
between = registers 8 ∷ responds 8 (codes "other") ∷ []

nothing_dropped : is_dropped empty_requests.next_channel empty_requests.dropped ≡ false
unfolding Pending.new
nothing_dropped = refl

respond-run_example :
    ((respond (Delivery.run (Pending.register empty_requests 7).0 between) 7 (codes "hello")).1
      ≡ true)
    × (lookup empty_requests.next_channel
          (respond
            (Delivery.run (Pending.register empty_requests 7).0 between)
            7
            (codes "hello")).0.delivered
        ≡ some (codes "hello"))
    × ((respond
          (respond (Delivery.run (Pending.register empty_requests 7).0 between) 7 (codes "hello")).0
          7
          (codes "again")).1
        ≡ false)
respond-run_example =
    respond-run empty_requests 7 between (codes "hello") (codes "again") nothing_dropped
      (refl, (refl, tt))

abbrev context : DomainContext
context = record { client_id = none; local_port = none; protocol = none }

abbrev second : Provider
second = record { counter = 1; reserved = [] }

abbrev first : Provider
first = record { counter = 0; reserved = [] }

generate_subdomain-differs_example :
    ((generate_subdomain first context).0 ≢ (generate_subdomain second context).0)
    × ((generate_subdomain first context).1.counter ≡ 0 + 1)
generate_subdomain-differs_example =
    generate_subdomain-differs first second context context (omega arith) (omega arith)
      (λ e. omega arith)

abbrev claims : JwtClaims
claims = record { token_type = some (codes "auth"); user_id = some (codes "alice") }

abbrev validate : Text → Result Text JwtClaims
validate token = if token == codes "good" then ok claims else err (codes "bad signature")

abbrev token_row : AuthToken
token_row = record { user_id = codes "alice"; expires_at = some 200; is_active = true }

abbrev database : Database
database = record {
  find_token = λ hash. ok (some token_row);
  find_domain = λ domain. ok none;
  find_wildcard = λ pattern. ok (some active);
}

abbrev same_text : Text → Text
same_text s = s

validate_auth_token_iff_example :
    (validate_auth_token same_text 100 (some validate) (some database) (codes "good")
      ≡ ok (codes "alice"))
    ↔ ((claims : JwtClaims) × (validate (codes "good") ≡ ok claims)
        × IsGranted same_text 100 (some database) (codes "good") (codes "alice") claims)
validate_auth_token_iff_example =
    validate_auth_token_iff same_text 100 validate (some database) (codes "good") (codes "alice")

is_custom_domain_registered_iff_example :
    (is_custom_domain_registered (some database) (codes "api.myapp.com") ≡ ok true) ↔ (
      (database.find_domain (codes "api.myapp.com") ≡ ok (some active))
      ⊎ ((database.find_domain (codes "api.myapp.com") ≡ ok none)
          × HasActiveParent database (extract_parent_wildcard (codes "api.myapp.com"))))
is_custom_domain_registered_iff_example =
    is_custom_domain_registered_iff database (codes "api.myapp.com")
