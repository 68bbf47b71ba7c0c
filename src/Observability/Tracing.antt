-- ===== src/Observability/Tracing.antt =====
-- src/tracing.ts: the spans of the program and what they record of an error. OpenTelemetry is a
-- package: a span keeps what the program tells it.
pub mod Laws
use news_api.Base.{
  ℕ, suc, String, Bool, true, false, not, ◌&&◌, ◌||◌, Option, none, some, List, [], ◌∷◌, ◌++◌, ltb,
  leb, ◌==◌, if◌then◌else◌, get_or, length, all,
}
use news_api.Errors.{Result, Thrown, error, no_error, ok, throw}
use news_api.Js.Text.{Text, codes, is_digit, is_letter, trim}
use mathlib.Core.List.{List, [], ◌∷◌, ◌++◌}
use Prim.Native.String.{String}

pub record Span : Type 0 where
  pub error_type : Option String
  pub exceptions : List (String × String)
  pub is_error : Bool
  pub ended : ℕ

abbrev pub new_span : Span
new_span = record { error_type = none; exceptions = []; is_error = false; ended = 0 }

-- `/^[a-z0-9_.-]{1,64}$/i.test(text)`.
unfoldable pub is_type_char : ℕ → Bool
unfolding is_letter is_digit
is_type_char c = is_letter c || is_digit c || c == b'_' || c == b'.' || c == b'-'

unfoldable pub is_type_text : String → Bool
unfolding is_type_char
is_type_text s = ltb 0 (length (codes s)) && leb (length (codes s)) 64 && all is_type_char (codes s)

abbrev pub is_type_option : Option String → Bool
is_type_option none = false
is_type_option (some s) = is_type_text s

-- The `code` of a thrown value: that of an error, or `code` of another object.
abbrev pub code_of : Thrown → Option String → Option String
code_of no_error code = code
code_of (error e) code = e.code

abbrev pub name_or : Thrown → String → String
name_or no_error fallback = fallback
name_or (error e) fallback = if is_type_text e.name then e.name else fallback

-- `stableErrorType(error, fallback)`.
unfoldable pub stable_error_type : Thrown → Option String → String → String
unfolding is_type_text
stable_error_type err code fallback =
    if is_type_option (code_of err code)
    then get_or (code_of err code) fallback
    else name_or err fallback

-- `markSpanError(span, error, fallback)`.
unfoldable pub mark_span_error : Thrown → Option String → String → Span → Span
unfolding stable_error_type
mark_span_error err code fallback span =
    let type = stable_error_type err code fallback in
    record span {
      error_type = some type;
      exceptions = (type, type) ∷ span.exceptions;
      is_error = true;
    }

abbrev pub end_span : Span → Span
end_span span = record span { ended = suc span.ended }

abbrev pub marked_result : {A : Type 0} → Option String → Result A → Span → Span
marked_result code (ok a) span = span
marked_result code (throw e) span = mark_span_error e code "unknown_error" span

-- `withSpan(name, attributes, operation)`: the span at its end, and the result. `code` is that of a
-- thrown value that is no error.
unfoldable pub with_span : {A : Type 0} → Option String → (Span → Span × Result A) → Span × Result A
unfolding mark_span_error
with_span code operation =
    let (span, r) = operation new_span in (end_span (marked_result code r span), r)

-- `resolveTracesUrl()`, from the three variables.
abbrev pub without_slash : Text → Text
without_slash [] = []
without_slash (c ∷ []) = if c == b'/' then [] else c ∷ []
without_slash (c ∷ d ∷ s) = c ∷ without_slash (d ∷ s)

abbrev pub trimmed : Option Text → Text
trimmed none = []
trimmed (some t) = trim t

unfoldable pub resolve_traces_url : Option Text → Option Text → (enabled : Bool) → Option Text
unfolding trim
resolve_traces_url traces_endpoint endpoint enabled =
    if not (length (trimmed traces_endpoint) == 0)
    then some (trimmed traces_endpoint)
    else if not (length (trimmed endpoint) == 0)
    then some (without_slash (trimmed endpoint) ++ codes "/v1/traces")
    else if enabled
    then some (codes "http://127.0.0.1:4318/v1/traces")
    else none
