-- ===== src/Observability/Tests.antt =====
-- A span whose work throws, and the identifier of a request, at concrete values.
use news_api.Http.Responses.{request_id}
use news_api.Observability.Logger.{gen_req_id, serialize_http_request}
use news_api.Observability.Logger.Laws.{gen_req_id-request_id}
use news_api.Http.RequestId.Laws.{IsRequestId, IsLoggedPath}
use news_api.Http.RequestId.{normalize_request_id, is_id_char, is_alphanumeric}
use news_api.Js.Text.{Text, codes}
use news_api.Observability.Tracing.{Span, new_span, with_span}
use news_api.Observability.Tracing.Laws.{IsTraced, with_span-IsTraced}
use news_api.Base.{ℕ, ◌≡◌, refl, none, some}
use news_api.Errors.{throw, no_error, text, nullish, Result}

abbrev failing : Span → Span × Result ℕ
failing span = (span, throw no_error)

with_span-IsTraced_example :
    IsTraced
      (some "ECONNRESET")
      (failing new_span).0
      (with_span (some "ECONNRESET") failing).0
      (failing new_span).1
    × ((with_span (some "ECONNRESET") failing).1 ≡ (failing new_span).1)
with_span-IsTraced_example = with_span-IsTraced (some "ECONNRESET") failing

abbrev uuid_text : Text
uuid_text = codes "3f0c"

uuid_normal : normalize_request_id (text uuid_text) ≡ some uuid_text
unfolding normalize_request_id is_id_char is_alphanumeric
uuid_normal = refl

gen_req_id-request_id_example :
    IsRequestId (gen_req_id (text (codes "bad id")) uuid_text).0
    × (request_id (text (gen_req_id (text (codes "bad id")) uuid_text).0) nullish
        ≡ (gen_req_id (text (codes "bad id")) uuid_text).0)
    × ((serialize_http_request
          (text (gen_req_id (text (codes "bad id")) uuid_text).0)
          none
          nullish
          nullish).id
        ≡ some (gen_req_id (text (codes "bad id")) uuid_text).0)
    × IsLoggedPath
        (serialize_http_request
          (text (gen_req_id (text (codes "bad id")) uuid_text).0)
          none
          nullish
          nullish).path
gen_req_id-request_id_example =
    gen_req_id-request_id (text (codes "bad id")) nullish uuid_text none nullish nullish uuid_normal
