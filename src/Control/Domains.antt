-- ===== src/Control/Domains.antt =====
-- The domain providers: crates/localup-control/src/domain_provider.rs. The characters of a text and the
-- Unicode class of alphanumeric characters are parameters. The counters are u64; a subdomain that is
-- reserved stands in a list.
pub mod Names
use localup.Base.{
  ℕ, ◌+◌, ◌%◌, ◌^◌, Bool, true, false, not, Option, some, List, [], ◌∷◌, ◌++◌, ltb, if◌then◌else◌,
  length, is_empty, any, ◌==◌, nat_eq, list_eq, Text, codes, starts_with, ends_with, Result, ok,
  ◌>>=◌, ◌>>◌, ensure, ◌||◌,
}
use localup.Control.Endpoints.{DomainContext, DomainProvider, decimal}

-- One constructor for each error message of `validate_subdomain`.
pub data SubdomainError : Type 0 where
  empty_subdomain too_short hyphen_at_end : SubdomainError
  too_long : ℕ → SubdomainError
  invalid_character : ℕ → SubdomainError

module _ (chars : Text → List ℕ) (is_alphanumeric : ℕ → Bool) where
  unfoldable pub check_chars : List ℕ → Result SubdomainError (Unit {0})
  check_chars [] = ok tt
  check_chars (c ∷ cs) = do
    ensure (is_alphanumeric c || c == b'-') (invalid_character c)
    check_chars cs

  unfoldable pub validate_subdomain : Text → Result SubdomainError (Unit {0})
  validate_subdomain subdomain = do
    ensure (not (is_empty subdomain)) empty_subdomain
    ensure (not (ltb 63 (length subdomain))) (too_long (length subdomain))
    ensure (not (ltb (length subdomain) 3)) too_short
    ensure (not (starts_with (codes "-") subdomain || ends_with (codes "-") subdomain))
        hyphen_at_end
    check_chars (chars subdomain)

pub record Provider : Type 0 where
  pub counter : ℕ
  pub reserved : List Text

unfoldable pub new : Provider
new = record { counter = 0; reserved = [] }

abbrev pub counter_size : ℕ
counter_size = 2 ^ 64

-- `*counter += 1`, and the name with the new counter
unfoldable pub generate_subdomain : Provider → DomainContext → Option Text × Provider
generate_subdomain p context = (
  some (codes "tunnel-" ++ decimal ((p.counter + 1) % counter_size)),
  record { counter = (p.counter + 1) % counter_size; reserved = p.reserved },
)

unfoldable pub simple_counter : DomainProvider Provider
simple_counter = record { allow_manual_subdomain = true; generate = generate_subdomain }

unfoldable pub restricted : DomainProvider Provider
restricted = record { allow_manual_subdomain = false; generate = generate_subdomain }

unfoldable pub is_available : Provider → Text → Bool
is_available p subdomain = not (any (λ s. s == subdomain) p.reserved)

unfoldable pub reserve : Provider → Text → Provider
reserve p subdomain = record p { reserved = subdomain ∷ p.reserved }

unfoldable pub release_from : Text → List Text → List Text
release_from subdomain [] = []
release_from subdomain (s ∷ names) =
    let rest = release_from subdomain names in if s == subdomain then rest else s ∷ rest

unfoldable pub release : Provider → Text → Provider
release p subdomain = record p { reserved = release_from subdomain p.reserved }
