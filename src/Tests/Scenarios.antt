-- ===== src/Tests/Scenarios.antt =====
-- The crate's own unit tests hold of the model.
use ai_auth.Common.{◌≡◌, refl, true}
use ai_auth.Limits.Float.{nanos}
use ai_auth.Scenarios.Context
use ai_auth.Scenarios.Limits
use ai_auth.Scenarios.Profile
use ai_auth.Scenarios.Secret
use ai_auth.Tests.Fixtures.{in_order}

expose_returns_contents_test : Secret.expose_returns_contents ≡ true
unfolding Secret.expose_returns_contents ai_auth.Secret.new ai_auth.Secret.expose ai_auth.Secret.len
    ai_auth.Secret.has_none ai_auth.Text.Str-discrete ai_auth.Common.ℕ_discrete
expose_returns_contents_test = refl

debug_never_prints_contents_test : Secret.debug_never_prints_contents ≡ true
unfolding Secret.debug_never_prints_contents ai_auth.Secret.new ai_auth.Secret.debug
    ai_auth.Text.str ai_auth.Text.as_bytes ai_auth.Text.Decimal.decimal ai_auth.Text.Decimal.digits
    ai_auth.Scenarios.contains ai_auth.Scenarios.starts_with
debug_never_prints_contents_test = refl

limiter_tests :
    (Limits.a_burst_within_capacity_is_allowed nanos in_order ≡ true)
    × (Limits.exceeding_capacity_is_refused nanos in_order ≡ true)
    × (Limits.tokens_refill_over_time nanos in_order ≡ true)
    × (Limits.refill_never_exceeds_capacity nanos in_order ≡ true)
    × (Limits.one_tenant_cannot_exhaust_anothers_budget nanos in_order ≡ true)
    × (Limits.operations_are_budgeted_separately nanos in_order ≡ true)
unfolding Limits.a_burst_within_capacity_is_allowed Limits.exceeding_capacity_is_refused
    Limits.tokens_refill_over_time Limits.refill_never_exceeds_capacity
    Limits.one_tenant_cannot_exhaust_anothers_budget Limits.operations_are_budgeted_separately
    Limits.limiter Limits.advance Limits.ask Limits.passing ai_auth.Limits.new ai_auth.Limits.allow
    ai_auth.Limits.charge_global ai_auth.Limits.take_token ai_auth.Limits.or_insert
    ai_auth.Limits.refilled ai_auth.HashMap.lookup ai_auth.HashMap.insert
    ai_auth.Limits.charge_tenant ai_auth.Limits.make_room ai_auth.Limits.Key-discrete
    ai_auth.Text.Str-discrete ai_auth.Common.ℕ_discrete ai_auth.Text.str
limiter_tests = (refl, refl, refl, refl, refl, refl)

gate_tests :
    (Context.missing_context_is_rejected ≡ true)
    × (Context.unspecified_purpose_is_always_rejected ≡ true)
    × (Context.wrong_purpose_is_permission_denied ≡ true)
    × (Context.empty_tenant_is_rejected ≡ true)
    × (Context.missing_subject_rejected_only_when_required ≡ true)
    × (Context.matching_purpose_passes ≡ true)
    × (Context.missing_request_id_is_rejected ≡ true)
unfolding Context.missing_context_is_rejected Context.unspecified_purpose_is_always_rejected
    Context.wrong_purpose_is_permission_denied Context.empty_tenant_is_rejected
    Context.missing_subject_rejected_only_when_required Context.matching_purpose_passes
    Context.missing_request_id_is_rejected Context.ctx Context.invalid Context.denied
    ai_auth.Scenarios.is_ok ai_auth.Context.validate ai_auth.Proto.Purpose.as_i32
    ai_auth.Proto.Purpose.from_i32 ai_auth.Proto.Purpose.Purpose-discrete ai_auth.Text.str
gate_tests = (refl, refl, refl, refl, refl, refl, refl)

profile_tests :
    (Profile.the_default_profile_is_strict ≡ true)
    × (Profile.known_names_parse_case_insensitively (λ s. s) ≡ true)
    × (Profile.an_unknown_profile_is_an_error_not_a_fallback (λ s. s) ≡ true)
    × (Profile.regulated_refuses_an_unvalidated_provider ≡ true)
    × (Profile.regulated_accepts_a_validated_provider ≡ true)
    × (Profile.other_profiles_do_not_require_validation ≡ true)
unfolding Profile.the_default_profile_is_strict Profile.known_names_parse_case_insensitively
    Profile.an_unknown_profile_is_an_error_not_a_fallback
    Profile.regulated_refuses_an_unvalidated_provider Profile.regulated_accepts_a_validated_provider
    Profile.other_profiles_do_not_require_validation Profile.attestation Profile.same Profile.parses
    ai_auth.Scenarios.is_ok ai_auth.Scenarios.contains ai_auth.Scenarios.starts_with
    ai_auth.Profile.default ai_auth.Profile.parse ai_auth.Profile.parse_name ai_auth.Profile.trim
    ai_auth.Profile.trim_start ai_auth.Profile.is_whitespace ai_auth.Profile.to_ascii_lowercase
    ai_auth.Profile.ascii_lower ai_auth.Profile.check ai_auth.Profile.refusal_text
    ai_auth.Profile.as_str ai_auth.Profile.Profile-discrete ai_auth.Text.Str-discrete
    ai_auth.Common.ℕ_discrete ai_auth.Text.str
profile_tests = (refl, refl, refl, refl, refl, refl)

invented_tests :
    (Limits.bucket_map_stays_bounded_against_invented_tenants nanos in_order ≡ true)
    × (Limits.a_global_ceiling_binds_a_caller_inventing_tenants nanos in_order ≡ true)
unfolding Limits.bucket_map_stays_bounded_against_invented_tenants
    Limits.a_global_ceiling_binds_a_caller_inventing_tenants Limits.invents Limits.limiter
    Limits.ask ai_auth.Limits.new ai_auth.Limits.allow ai_auth.Limits.charge_global
    ai_auth.Limits.take_token ai_auth.Limits.or_insert ai_auth.Limits.refilled
    ai_auth.HashMap.lookup ai_auth.HashMap.insert ai_auth.Limits.charge_tenant
    ai_auth.Limits.make_room ai_auth.Limits.drop_full ai_auth.Limits.evict_least_recent
    ai_auth.Limits.least_recent ai_auth.Limits.by_last_use ai_auth.Limits.Sort.sort_by_key
    ai_auth.HashMap.remove_all ai_auth.HashMap.remove ai_auth.HashMap.retain
    ai_auth.Limits.Key-discrete ai_auth.Text.Str-discrete ai_auth.Common.ℕ_discrete ai_auth.Text.str
    ai_auth.Text.Decimal.decimal ai_auth.Text.Decimal.digits
invented_tests = (refl, refl)
