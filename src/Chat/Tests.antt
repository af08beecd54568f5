-- ===== src/Chat/Tests.antt =====
-- Chat requests on small inputs (llm_platform/services/chat.py).
use foundation_ai_platform.Prelude.{
  ◌≡◌, ◌≢◌, refl, inl, inr, Elem, ◌==◌, true, false, none, some, [], contains,
}
use foundation_ai_platform.Prelude.Dict.{lookup, insert, values}
use foundation_ai_platform.Prelude.Sorting.{sort}
use foundation_ai_platform.Value.{text}
use foundation_ai_platform.Exec.{err, other, not_found}
use foundation_ai_platform.Registry.{list_models, list_deployments}
use foundation_ai_platform.Schemas.Gateway.{ChatCompletionRequest}
use foundation_ai_platform.Schemas.Records.{ModelRecord, RouteDecision, matched_preferred}
use foundation_ai_platform.Platform.{active_on, HasLedger}
use foundation_ai_platform.Samples.{
  bare, at_rest, under_load, card, store, first, hello, phi, phi_down, tiny_up,
}
use foundation_ai_platform.Chat.{find_fallback_deployment, model_by_id, offers}
use foundation_ai_platform.Chat.Fallback.{CanTakeOver}
use foundation_ai_platform.Chat.Starts.{start_failed}
use foundation_ai_platform.Chat.Requests.{chat}
use foundation_ai_platform.Chat.Counts.{chat-IsBalanced}
use foundation_ai_platform.Chat.Failures.{IsAbandoned, start_failed-IsAbandoned, chat_refuses}

chat-IsBalanced_example :
    active_on (chat bare first hello under_load).1.concurrency_tracker "d1"
    ≡ active_on under_load.concurrency_tracker "d1"
chat-IsBalanced_example = chat-IsBalanced bare first hello under_load "d1"

tiny_takes_over :
    CanTakeOver "chat" (model_by_id (list_models store) []) (list_deployments store) tiny_up
unfolding list_deployments list_models values model_by_id offers contains lookup insert
tiny_takes_over = record { listed = inl refl; is_up = refl; capable = refl }

fallback : find_fallback_deployment "chat" at_rest ≡ some tiny_up
unfolding find_fallback_deployment sort list_deployments list_models values model_by_id contains
    lookup insert
fallback = refl

abbrev to_phi : RouteDecision
to_phi = record {
  model_id = "phi";
  deployment_id = some "d2";
  endpoint = some "http://localhost";
  capability = "chat";
  reason = matched_preferred;
  requires_cold_start = true;
  requires_new_instance = true;
  evict_deployment_id = none;
}

card-HasLedger : HasLedger (some card)
unfolding lookup
card-HasLedger = (refl, tt)

start_failed-IsAbandoned_example :
    IsAbandoned bare first phi_down
      (start_failed bare first to_phi hello phi (some phi_down) (other "no GPU") at_rest)
start_failed-IsAbandoned_example =
    start_failed-IsAbandoned bare first to_phi hello phi phi_down (other "no GPU") at_rest
      card-HasLedger

abbrev for_nobody : ChatCompletionRequest
for_nobody = record hello { model = some "nobody" }

nobody_listed :
    (m : ModelRecord)
    → Elem m (list_models at_rest.registry)
    → ((m.id == "nobody") ≡ false) × ((m.name == "nobody") ≡ false)
unfolding list_models values
nobody_listed m (inl first) = rw first (refl, refl)
nobody_listed m (inr (inl second)) = rw second (refl, refl)
nobody_listed m (inr (inr x)) = elim x [ ]

no_password : for_nobody.password ≢ some "dhruv"
no_password e = cc

no_noted : lookup "password" for_nobody.metadata ≢ some (text "dhruv")
unfolding lookup
no_noted e = cc

chat_refuses_example :
    chat bare first for_nobody at_rest
    ≡ (err (not_found "Requested model was not found in registry: nobody"), at_rest)
chat_refuses_example =
    chat_refuses bare first for_nobody "nobody" at_rest refl refl nobody_listed no_password
      (inr no_noted)
