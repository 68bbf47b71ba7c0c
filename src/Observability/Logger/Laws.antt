-- ===== src/Observability/Logger/Laws.antt =====
-- The identifier of a request is one and the same everywhere, and fit for a log.
use news_api.Http.RequestId.Laws.{
  IsRequestId, normalize_request_id_idempotent, IsLoggedPath, normalize_request_id-IsRequestId,
  bounded_request_path-IsLoggedPath,
}
use news_api.Http.RequestId.{normalize_request_id}
use news_api.Js.Text.{Text}
use news_api.Http.Responses.{request_id}
use news_api.Observability.Logger.{
  gen_req_id, serialize_http_request, Text, normalize_request_id, IsRequestId,
  normalize_request_id_idempotent, or_url,
}
use news_api.Base.{◌≡◌, inl, inr, Option, some, Option-cases}
use news_api.Errors.{text, HeaderValue}

-- The identifier that a request gets is the client's own or the new one.
gen_req_id-normal :
    (raw : HeaderValue) (uuid : Text)
    → normalize_request_id (text uuid) ≡ some uuid
    → normalize_request_id (text (gen_req_id raw uuid).0) ≡ some (gen_req_id raw uuid).0
unfolding gen_req_id
gen_req_id-normal raw uuid fresh = elim (Option-cases (normalize_request_id raw)) [
  | inl bad ↦ rw bad fresh
  | inr (id, good) ↦ rw good (normalize_request_id_idempotent raw id good)
]

-- Whatever a client sends as an identifier, a request has one identifier of 1 to 128 plain
-- characters, and the log line and the bodies of its answers show that one, with any later header;
-- its log line shows a path without a query. The new identifiers are fit themselves.
pub gen_req_id-request_id :
    (raw header : HeaderValue) (uuid : Text) (method : Option Text) (original_url url : HeaderValue)
    → normalize_request_id (text uuid) ≡ some uuid
    → IsRequestId (gen_req_id raw uuid).0
      × (request_id (text (gen_req_id raw uuid).0) header ≡ (gen_req_id raw uuid).0)
      × ((serialize_http_request (text (gen_req_id raw uuid).0) method original_url url).id
          ≡ some (gen_req_id raw uuid).0)
      × IsLoggedPath
          (serialize_http_request (text (gen_req_id raw uuid).0) method original_url url).path
unfolding request_id serialize_http_request
gen_req_id-request_id raw header uuid method original_url url fresh =
    let normal = gen_req_id-normal raw uuid fresh in
    (
      normalize_request_id-IsRequestId (text (gen_req_id raw uuid).0) (gen_req_id raw uuid).0
          normal,
      rw normal,
      normal,
      bounded_request_path-IsLoggedPath (or_url original_url url),
    )
