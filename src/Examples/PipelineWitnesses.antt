-- ===== src/Examples/PipelineWitnesses.antt =====
-- The theorems on the pipeline at concrete requests.
use nest_order_api.Common.{◌≡◌, refl, lit, text_eq, none, some, true, [], ◌∷◌, ◌⊎◌}
use nest_order_api.App.{run}
use nest_order_api.App.Pipeline.{HttpRequest, thrown, answer, authenticate, throttle, serve}
use nest_order_api.Errors.{Exception, other}
use nest_order_api.Errors.Filter.{too_large, translate, is_payload_too_large}
use nest_order_api.App.Pipeline.Histories.{serve_all, all_admitted, serve_all-run}
use nest_order_api.App.Pipeline.Refusals.{
  unauthenticated, limited, unparsed, id_of, serve-unauthenticated,
}
use nest_order_api.App.Pipeline.Replies.{IsTraced, expected_id, serve-IsTraced}
use nest_order_api.Auth.{unauthorized}
use nest_order_api.Effects.{err}
use nest_order_api.Examples.Data.{handler_first, is_filled}
use nest_order_api.Examples.Deployed.{deployed, add_ink, probe, booted}
use nest_order_api.Examples.Memory.{exact_decimal, memory_orm}
use nest_order_api.Http.RequestId.{current_request_id}
use nest_order_api.Values.{undefined, str}

serve_all-run_example :
    (serve_all deployed
      (add_ink (str (lit "Bearer bob")) ∷ add_ink undefined ∷ probe ∷ [])
      booted).world
    ≡ run exact_decimal memory_orm handler_first is_filled is_filled
        (all_admitted deployed
          (add_ink (str (lit "Bearer bob")) ∷ add_ink undefined ∷ probe ∷ [])
          booted)
        booted.world
serve_all-run_example =
    serve_all-run deployed (add_ink (str (lit "Bearer bob")) ∷ add_ink undefined ∷ probe ∷ [])
      booted

no_token : authenticate deployed 5 undefined ≡ err unauthorized
unfolding authenticate
no_token = refl

-- Without a token, and with a body of more than 1 MB.
abbrev oversized : HttpRequest
oversized = record (add_ink undefined) {
  body_error = some (
      other (record {
        kind = some (lit "entity.too.large");
        status = some 413;
        status_code = some 413;
        code = none;
      }));
}

serve-unauthenticated_example :
    ((serve deployed oversized booted).1.world ≡ booted.world)
    × (((t : Exception) × (oversized.body_error ≡ some t)
          × ((serve deployed oversized booted).0 ≡ unparsed t))
        ⊎ ((oversized.body_error ≡ none)
            × (((serve deployed oversized booted).0.answer ≡ unauthenticated (id_of oversized))
                ⊎ (((throttle deployed oversized booted.buckets).0 ≡ true)
                    × ((serve deployed oversized booted).0.answer
                        ≡ limited (id_of oversized) deployed.too_many)))))
serve-unauthenticated_example =
    serve-unauthenticated deployed oversized booted unauthorized refl no_token

serve-IsTraced_example :
    ((serve deployed (add_ink undefined) booted).0.header ≡ expected_id (add_ink undefined))
    × IsTraced
        (expected_id (add_ink undefined))
        (serve deployed (add_ink undefined) booted).0.answer
serve-IsTraced_example = serve-IsTraced deployed (add_ink undefined) booted

-- It is answered 413, before the missing token is seen.
oversized_answered :
    (serve deployed oversized booted).0 ≡ record { header = none; answer = thrown (too_large none) }
unfolding serve answer current_request_id translate is_payload_too_large text_eq
oversized_answered = refl
