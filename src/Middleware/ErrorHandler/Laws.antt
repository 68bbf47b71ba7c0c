-- ===== src/Middleware/ErrorHandler/Laws.antt =====
-- What clients see of errors.
use news_api.Http.BodyParser.{
  get_body_parser_error_contract, inherited, TableEntry, own, body_parser_contract_sound, missing,
}
use news_api.Errors.{Thrown, is_request_aborted_error, ErrorObject, error, no_error}
use news_api.Middleware.ErrorHandler.{
  Response, answered, error_handler, Thrown, body_of, is_http_error, structured, plain_message,
  get_body_parser_error_contract, in_range, is_malformed_path_error, answer_entry,
}
use news_api.Js.Text.{Text}
use news_api.Base.{
  ℕ, ◌≤◌, ◌<◌, String, ◌≡◌, refl, ◌≢◌, inl, inr, Bool, true, false, Option, none, some, arith,
  str_eq, Bool-cases, and-split, get_or,
}

module _ (uses_structured_errors : Bool) (request_id : Text) where
  -- An answer with an error's status, and a body in the form of the route.
  abbrev pub IsErrorAnswer : Response → Type 0
  IsErrorAnswer (answered status retry_after (structured code message id)) =
      (400 ≤ status) × (status < 600) × (uses_structured_errors ≡ true) × (id ≡ request_id)
  IsErrorAnswer (answered status retry_after (plain_message message)) =
      (400 ≤ status) × (status < 600) × (uses_structured_errors ≡ false)
  IsErrorAnswer _ = ⊥

  answered-IsErrorAnswer :
      (status : ℕ) (retry_after : Option Text) (code : Option String) (message : String)
      → 400 ≤ status
      → status < 600
      → IsErrorAnswer
          (answered status retry_after (body_of uses_structured_errors request_id code message))
  answered-IsErrorAnswer status retry_after code message lo hi =
      elim (Bool-cases uses_structured_errors) [
        | inl v1 ↦ rw (v1, IsErrorAnswer) (lo, hi, v1, refl)
        | inr old ↦ rw (old, IsErrorAnswer) (lo, hi, old)
      ]

  in_range-bounds : (o : Option ℕ) → in_range o ≡ true → (400 ≤ get_or o 500) × (get_or o 500 < 600)
  in_range-bounds none h = absurd (ground arith)
  in_range-bounds (some code) h = ground arith

  in_range-http : (e : ErrorObject) → is_http_error e ≡ true → in_range e.status_code ≡ true
  unfolding is_http_error
  in_range-http e h = (and-split (str_eq e.name "HttpError") (in_range e.status_code) h).1

  answer_entry-IsErrorAnswer :
      (e : ErrorObject) (t : TableEntry)
      → get_body_parser_error_contract (error e) ≡ t
      → t ≢ inherited
      → IsErrorAnswer (answer_entry uses_structured_errors request_id t)
  answer_entry-IsErrorAnswer e missing h own_ =
      answered-IsErrorAnswer 500 none _ _ (omega arith) (omega arith)
  answer_entry-IsErrorAnswer e (own c) h own_ =
      let (_, lo, hi) = body_parser_contract_sound e c h in
      answered-IsErrorAnswer c.status_code none _ _ lo (omega (arith, hi))
  answer_entry-IsErrorAnswer e inherited h own_ = absurd (own_ refl)

  -- Whatever is thrown, if it is no cancellation, nothing was sent and no inherited member is
  -- taken for a contract, the client gets an answer with a status from 400 to 599 in the form of
  -- the route.
  pub error_handler-IsErrorAnswer :
      (err : Thrown)
      → is_request_aborted_error err ≡ false
      → get_body_parser_error_contract err ≢ inherited
      → IsErrorAnswer (error_handler uses_structured_errors request_id false err)
  unfolding error_handler
  error_handler-IsErrorAnswer no_error live own_ =
      rw live (answered-IsErrorAnswer 500 none _ _ (omega arith) (omega arith))
  error_handler-IsErrorAnswer (error e) live own_ = elim (Bool-cases (is_http_error e)) [
    | inl http ↦
        let (lo, hi) = in_range-bounds e.status_code (in_range-http e http) in
        rw (live, http) (answered-IsErrorAnswer _ e.retry_after _ _ lo hi)
    | inr other_ ↦ elim (Bool-cases (is_malformed_path_error e)) [
      | inl path ↦
          rw (live, other_, path) (answered-IsErrorAnswer 400 none _ _ (omega arith) (omega arith))
      | inr unknown ↦ rw (live, other_, unknown) (answer_entry-IsErrorAnswer e _ refl own_)
    ]
  ]

  -- The message of an error that is no HttpError never reaches the client.
  pub error_handler-message :
      (headers_sent : Bool) (e : ErrorObject) (message : String)
      → is_http_error e ≡ false
      → error_handler uses_structured_errors request_id headers_sent
          (error (record e { message = message }))
        ≡ error_handler uses_structured_errors request_id headers_sent (error e)
  unfolding error_handler is_http_error is_request_aborted_error get_body_parser_error_contract
  error_handler-message headers_sent e message h = rw h
