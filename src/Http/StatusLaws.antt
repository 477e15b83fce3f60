-- ===== src/Http/StatusLaws.antt =====
-- The numbers and the reason phrases tell the status codes apart.
use gouda_http_server.Common.{
  ◌≡◌, refl, Bool, Option, none, some, List, [], ◌∷◌, ◌==◌, if◌then◌else◌,
}
use gouda_http_server.Common.Bytes.{eq}
use gouda_http_server.Http.Status.{
  HttpStatusCode, status_number, status_code_to_string_view, continue, switching_protocols,
  processing, early_hints, ok, created, accepted, non_authoritative_information, no_content,
  reset_content, partial_content, multi_status, already_reported, im_used, multiple_choices,
  moved_permanently, found, see_other, not_modified, use_proxy, switch_proxy, temporary_redirect,
  permanent_redirect, bad_request, unauthorized, payment_required, forbidden, not_found,
  method_not_allowed, not_acceptable, proxy_authentication_required, request_timeout, conflict,
  gone, length_required, precondition_failed, payload_too_large, uri_too_long,
  unsupported_media_type, range_not_satisfiable, expectation_failed, im_a_teapot,
  misdirected_request, unprocessable_entity, locked, failed_dependency, too_early, upgrade_required,
  precondition_required, too_many_requests, request_header_fields_too_large,
  unavailable_for_legal_reasons, internal_server_error, not_implemented, bad_gateway,
  service_unavailable, gateway_timeout, http_version_not_supported, variant_also_negotiates,
  insufficient_storage, loop_detected, not_extended, network_authentication_required,
}

-- Every enumerator of the source.
pub all_statuses : List HttpStatusCode
all_statuses =
    continue ∷ switching_protocols ∷ processing ∷ early_hints ∷ ok ∷ created ∷ accepted
    ∷ non_authoritative_information ∷ no_content ∷ reset_content ∷ partial_content ∷ multi_status
    ∷ already_reported ∷ im_used ∷ multiple_choices ∷ moved_permanently ∷ found ∷ see_other
    ∷ not_modified ∷ use_proxy ∷ switch_proxy ∷ temporary_redirect ∷ permanent_redirect
    ∷ bad_request ∷ unauthorized ∷ payment_required ∷ forbidden ∷ not_found ∷ method_not_allowed
    ∷ not_acceptable ∷ proxy_authentication_required ∷ request_timeout ∷ conflict ∷ gone
    ∷ length_required ∷ precondition_failed ∷ payload_too_large ∷ uri_too_long
    ∷ unsupported_media_type ∷ range_not_satisfiable ∷ expectation_failed ∷ im_a_teapot
    ∷ misdirected_request ∷ unprocessable_entity ∷ locked ∷ failed_dependency ∷ too_early
    ∷ upgrade_required ∷ precondition_required ∷ too_many_requests ∷ request_header_fields_too_large
    ∷ unavailable_for_legal_reasons ∷ internal_server_error ∷ not_implemented ∷ bad_gateway
    ∷ service_unavailable ∷ gateway_timeout ∷ http_version_not_supported ∷ variant_also_negotiates
    ∷ insufficient_storage ∷ loop_detected ∷ not_extended ∷ network_authentication_required ∷ []

-- The first status that passes a test.
pub find_status : (HttpStatusCode → Bool) → List HttpStatusCode → Option HttpStatusCode
find_status p [] = none
find_status p (s ∷ more) = if p s then some s else find_status p more

-- Every status is found again from its number, and from its reason phrase: no two enumerators share
-- either.
status_number-distinct :
    (s : HttpStatusCode)
    → (find_status (λ t. status_number t == status_number s) all_statuses ≡ some s)
      × (find_status
            (λ t. eq (status_code_to_string_view t) (status_code_to_string_view s))
            all_statuses
          ≡ some s)
unfolding status_number status_code_to_string_view find_status all_statuses
status_number-distinct ok = (refl, refl)
status_number-distinct _ = (refl, refl)
