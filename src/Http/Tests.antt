-- ===== src/Http/Tests.antt =====
-- Headers at concrete values.
use news_api.Http.Responses.{Meta}
use news_api.Http.BodyParser.{get_body_parser_error_contract, body_parser_contract_sound, contract}
use news_api.Base.Int.{ℤ, pos}
use news_api.Errors.{ErrorObject, plain, text, nullish}
use news_api.Http.Conditional.Laws.{Tag}
use news_api.Http.RetryAfter.{retry_after_from_headers}
use news_api.Http.RetryAfter.Laws.{IsBoundedSeconds, retry_after_from_headers-IsBoundedSeconds}
use news_api.Js.Text.{Text, codes}
use news_api.Base.{◌≤◌, ◌<◌, ◌≡◌, refl, true, false, Option, none, some, [], ◌∷◌, ℕ}

abbrev at_midnight : Text → Option ℤ
at_midnight s = some (pos 90_000_000)

retry_after_from_headers-IsBoundedSeconds_example : IsBoundedSeconds (
    retry_after_from_headers at_midnight 0 (
      some (record {
        get = none;
        retry_after = text (codes "Fri, 02 Jan 1970 01:00:00 GMT");
        retry_after_title = nullish;
      })))
retry_after_from_headers-IsBoundedSeconds_example =
    retry_after_from_headers-IsBoundedSeconds at_midnight 0 (
      some (record {
        get = none;
        retry_after = text (codes "Fri, 02 Jan 1970 01:00:00 GMT");
        retry_after_title = nullish;
      }))

abbrev weak_a : Tag
weak_a = (true, codes "a")

abbrev strong_a : Tag
strong_a = (false, codes "a")

abbrev strong_b : Tag
strong_b = (false, codes "b")

-- The digest of a list is always the same.
abbrev one_digest : ℕ → Meta → Text
one_digest n meta = codes "abc"

abbrev hit_meta : Meta
hit_meta = ("query", codes "rust") ∷ ("cache", codes "hit") ∷ []

abbrev miss_meta : Meta
miss_meta = ("query", codes "rust") ∷ ("cache", codes "miss") ∷ []

abbrev too_large : ErrorObject
too_large = record {
  cls = plain;
  name = "PayloadTooLargeError";
  message = "request entity too large";
  code = none;
  status_code = some 413;
  retry_after = none;
  body_type = some "entity.too.large";
}

body_parser_contract_sound_example :
    (too_large.body_type ≡ some "entity.too.large") × (400 ≤ 413) × (413 < 500)
unfolding get_body_parser_error_contract
body_parser_contract_sound_example =
    body_parser_contract_sound too_large
      (contract "entity.too.large" 413 "request_body_too_large" "Request body too large") refl
