-- ===== src/Client/Dashboard/Honest.antt =====
-- The dashboard of the web client shows a lost call as an error, never as an empty list.
use server_hub.Prelude.{
  ℕ, Bool, true, false, ◌≡◌, ◌↔◌, refl, List, [], ◌∷◌, Option, none, some, ◌==◌, if◌then◌else◌, any,
  arith, ◌⊎◌, inl, inr, ◌∙◌,
}
use server_hub.Text.{Text}
use server_hub.Json.{Json}
use server_hub.Client.Dashboard.{
  api_failure, Fetch, got, lost, err_message, Dash, AuditEntry, Dashboard, query_fn, core, finish,
  assemble, failed_ids, entries, is_lost, services_of, online_after, other_failure, no_error,
}

-- What the view says of the servers, by how their call ended.
abbrev pub Shows : Fetch (List Json) → Dashboard → Type 0
Shows (got s) view = (view.servers_ok ≡ true) × (view.servers ≡ s) × (view.servers_error ≡ none)
Shows (lost e) view =
    (view.servers_ok ≡ false) × (view.servers ≡ []) × (view.servers_error ≡ some (err_message e))

-- Where the dashboard and the audit log come, the query succeeds whatever the other calls do, and a
-- lost call for the servers shows as an error.
pub query_fn-Shows :
    (audit_first : Bool) (d : Dash) (a : List AuditEntry) (servers : Fetch (List Json))
    (services : ℕ → Fetch (List Json)) (now : ℕ)
    → (view : Dashboard) × (query_fn audit_first (got d) (got a) servers services now
        ≡ (got view, true))
      × Shows servers view
unfolding query_fn
query_fn-Shows audit_first d a (got s) services now =
    (assemble d a (got s) services now, refl, (refl, refl, refl))
query_fn-Shows audit_first d a (lost e) services now =
    (assemble d a (lost e) services now, refl, (refl, refl, refl))

online_after_lem :
    (r : Fetch Dashboard)
    → (online_after r ≡ true)
      ↔ (((view : Dashboard) × (r ≡ got view)) ⊎ ((m : Text) × (r ≡ lost (api_failure 401 m))))
unfolding online_after
online_after_lem (got view) = (λ h. inl (view, refl), λ h. refl)
online_after_lem (lost (api_failure n m)) =
    (λ h. inr (m, ground (arith, h)), λ h. ground (arith, h))
online_after_lem (lost (other_failure m)) = (λ h. cc, λ h. ground (arith, h))
online_after_lem (lost no_error) = (λ h. cc, λ h. ground (arith, h))

-- The web client counts as online after a result, and after a 401; after any other failure it does not.
pub query_fn-online :
    (audit_first : Bool) (dash : Fetch Dash) (audit : Fetch (List AuditEntry))
    (servers : Fetch (List Json)) (services : ℕ → Fetch (List Json)) (now : ℕ)
    → ((query_fn audit_first dash audit servers services now).1 ≡ true) ↔ (
        ((view : Dashboard) × ((query_fn audit_first dash audit servers services now).0 ≡ got view))
        ⊎ ((m : Text) × ((query_fn audit_first dash audit servers services now).0
              ≡ lost (api_failure 401 m))))
unfolding query_fn
query_fn-online audit_first dash audit servers services now =
    online_after_lem (finish (core audit_first dash audit) servers services now)

-- The value of a key in `Object.fromEntries`; the last entry of a key counts.
abbrev pub value_of : ℕ → List (ℕ × List Json) → Option (List Json)
value_of id [] = none
value_of id ((j, v) ∷ es) = elim (value_of id es) [
  | some w ↦ some w
  | none ↦ if j == id then some v else none
]

abbrev pub member : ℕ → List ℕ → Bool
member id ids = any (λ j. j == id) ids

failed_ids-member :
    (services : ℕ → Fetch (List Json)) (ids : List ℕ) (id : ℕ)
    → member id (failed_ids services ids) ≡ (if member id ids then is_lost (services id) else false)
unfolding failed_ids
failed_ids-member services [] id = refl
failed_ids-member services (j ∷ ids) id = ground (arith, failed_ids-member services ids id, j)

entries-value_of :
    (services : ℕ → Fetch (List Json)) (ids : List ℕ) (id : ℕ)
    → value_of id (entries services ids)
      ≡ (if member id ids then some (services_of (services id)) else none)
unfolding entries
entries-value_of services [] id = refl
entries-value_of services (j ∷ ids) id = ground (arith, entries-value_of services ids id)

-- Every project of the dashboard has its services, or none and a place among those whose services
-- were lost.
pub query_fn-services :
    (audit_first : Bool) (d : Dash) (a : List AuditEntry) (servers : Fetch (List Json))
    (services : ℕ → Fetch (List Json)) (now id : ℕ)
    → member id d.projects ≡ true
    → (view : Dashboard) × (query_fn audit_first (got d) (got a) servers services now
        ≡ (got view, true))
      × (value_of id view.services_by_project ≡ some (services_of (services id)))
      × (member id view.services_failed_ids ≡ is_lost (services id))
unfolding query_fn
query_fn-services audit_first d a servers services now id h = (
  assemble d a servers services now,
  refl,
  entries-value_of services d.projects id ∙ ground (arith, h),
  failed_ids-member services d.projects id ∙ ground (arith, h),
)
