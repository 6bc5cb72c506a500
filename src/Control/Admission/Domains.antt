-- ===== src/Control/Admission/Domains.antt =====
-- Which custom domains a tunnel may use.
use localup.Base.{
  ◌≡◌, refl, ◌↔◌, ◌⊎◌, inl, inr, Bool, true, Option, none, some, nat_eq, list_eq, Text, Result, ok,
  err,
}
use localup.Router.Wildcard.{extract_parent_wildcard}
use localup.Control.Admission.{
  Database, wildcard_row, domain_row, DomainStatus, pending, active, expired, failed,
  is_active_status, is_wildcard_registered, is_custom_domain_registered,
}

-- The parent pattern is registered as an active wildcard.
abbrev pub HasActiveParent : Database → Option Text → Type 0
HasActiveParent db parent =
    (pattern : Text) × (parent ≡ some pattern) × (db.find_wildcard pattern ≡ ok (some active))

active_row :
    (status : DomainStatus)
    → (◌≡◌ {A = Result Text Bool} (ok (is_active_status status)) (ok true))
      ↔ (◌≡◌ {A = Result Text (Option DomainStatus)} (ok (some status)) (ok (some active)))
active_row active = (λ e. refl, λ e. refl)
active_row pending = (λ e. cc, λ e. cc)
active_row expired = (λ e. cc, λ e. cc)
active_row failed = (λ e. cc, λ e. cc)

wildcard_row_iff :
    (row : Result Text (Option DomainStatus))
    → (wildcard_row row ≡ ok true) ↔ (row ≡ ok (some active))
unfolding wildcard_row
wildcard_row_iff (err e) = (λ h. cc, λ h. cc)
wildcard_row_iff (ok none) = (λ h. cc, λ h. cc)
wildcard_row_iff (ok (some status)) = active_row status

is_wildcard_registered_iff :
    (db : Database) (parent : Option Text)
    → (is_wildcard_registered db parent ≡ ok true) ↔ HasActiveParent db parent
unfolding is_wildcard_registered
is_wildcard_registered_iff db none = (λ h. cc, λ (p, e, a). cc)
is_wildcard_registered_iff db (some pattern) =
    let (to, from) = wildcard_row_iff (db.find_wildcard pattern) in
    (λ h. (pattern, refl, to h), λ (p, e, a). from (rw (same p e) a))
  where
    same : (p : Text) → ◌≡◌ {A = Option Text} (some pattern) (some p) → pattern ≡ p
    same p x = cc

domain_row_iff :
    (db : Database) (domain : Text) (row : Result Text (Option DomainStatus))
    → (domain_row db domain row ≡ ok true) ↔ (
        (row ≡ ok (some active))
        ⊎ ((row ≡ ok none) × HasActiveParent db (extract_parent_wildcard domain)))
unfolding domain_row
domain_row_iff db domain (err e) = (λ h. cc, λ a. elim a [ inl x ↦ cc | inr (x, y) ↦ cc ])
domain_row_iff db domain (ok (some status)) =
    let (to, from) = active_row status in
    (λ h. inl (to h), λ a. elim a [ inl x ↦ from x | inr (x, y) ↦ cc ])
domain_row_iff db domain (ok none) =
    let (to, from) = is_wildcard_registered_iff db (extract_parent_wildcard domain) in
    (λ h. inr (refl, to h), λ a. elim a [ inl x ↦ cc | inr (x, y) ↦ from y ])

-- With a database, a custom domain may be used exactly if the database has it as an active domain, or does
-- not have it and has its parent pattern as an active wildcard. So a domain that is registered and not
-- active is refused even under an active wildcard.
pub is_custom_domain_registered_iff :
    (db : Database) (domain : Text)
    → (is_custom_domain_registered (some db) domain ≡ ok true) ↔ (
        (db.find_domain domain ≡ ok (some active))
        ⊎ ((db.find_domain domain ≡ ok none) × HasActiveParent db (extract_parent_wildcard domain)))
unfolding is_custom_domain_registered
is_custom_domain_registered_iff db domain = domain_row_iff db domain (db.find_domain domain)
