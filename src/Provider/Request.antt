-- ===== src/Provider/Request.antt =====
-- src/providers/gnewsProvider.ts, `GNewsProvider.search` as a whole: the admission by the circuit, the
-- retried calls and their settlement, and the parameters of a call. What other searches do to the
-- circuit while the calls run is an argument.
use news_api.Base.Int.{ℤ}
use news_api.Types.Article.{Json}
use news_api.Js.Text.{Text, codes}
use news_api.Base.{ℕ, String, Bool, Option, none, some, List, [], ◌∷◌, if◌then◌else◌}
use news_api.Provider.Search.{Signals, settle}
use news_api.Provider.Circuit.{CircuitWorld, CircuitRequestState, assert_circuit_allows_request}
use news_api.Provider.Retry.{Attempt, Run, with_upstream_retries}
use news_api.Types.Search.{ArticleSearchOptions}
use news_api.Utils.Validation.{ArticleSortBy, published_at, relevance}
use news_api.Errors.{Result, ok, throw, no_error, request_aborted_error}
use mathlib.Core.List.{List, [], ◌∷◌}

-- A parameter of the query of a call.
pub data ParamValue : Type 0 where
  undefined : ParamValue
  text_param : Text → ParamValue
  number_param : ℕ → ParamValue

abbrev pub optional_param : Option Text → ParamValue
optional_param none = undefined
optional_param (some t) = text_param t

abbrev pub sort_param : Option ArticleSortBy → ParamValue
sort_param none = undefined
sort_param (some published_at) = text_param (codes "publishedAt")
sort_param (some relevance) = text_param (codes "relevance")

-- `toProviderParams(options)`, with the provider's key.
unfoldable pub to_provider_params :
    (gnews_api_key : Option Text) → ArticleSearchOptions → List (String × ParamValue)
to_provider_params gnews_api_key o =
    ("q", text_param o.query)
    ∷ ("max", number_param o.count)
    ∷ ("page", number_param o.page)
    ∷ ("token", optional_param gnews_api_key)
    ∷ ("lang", optional_param o.filters.lang)
    ∷ ("country", optional_param o.filters.country)
    ∷ ("from", optional_param o.filters.from)
    ∷ ("to", optional_param o.filters.to)
    ∷ ("sortby", sort_param o.filters.sort_by)
    ∷ []

-- The settings, and what happens during a search: whether its signal is aborted when it starts, the
-- clock then and at the end, the retried calls of axios, what runs beside them, and the signals.
pub record SearchRun : Type 0 where
  pub threshold : ℕ
  pub cooldown : ℕ
  pub max_retries : ℕ
  pub retry_base : ℕ
  pub aborted_before : Bool
  pub started : ℕ
  pub attempts : ℕ → Attempt Json
  pub beside : CircuitWorld → CircuitWorld
  pub ended : ℕ
  pub signals : Signals

-- The result of the retries, which always end.
abbrev pub result_of : Option (Run Json) → Result Json
result_of none = throw no_error
result_of (some r) = r.result

module _ (date_parse : Text → Option ℤ) where
  abbrev pub after_admission :
      SearchRun → CircuitWorld × Result CircuitRequestState → CircuitWorld × Result (List Json)
  after_admission run (w, throw e) = (w, throw e)
  after_admission run (w, ok state) =
      let s =
        settle date_parse run.threshold state run.ended run.signals
          (result_of (with_upstream_retries run.max_retries run.retry_base run.attempts))
          (run.beside w) in
      (s.world, s.result)

  -- `search(options, signal)`.
  unfoldable pub gnews_search : SearchRun → CircuitWorld → CircuitWorld × Result (List Json)
  unfolding assert_circuit_allows_request with_upstream_retries settle
  gnews_search run w =
      if run.aborted_before
      then (w, throw request_aborted_error)
      else after_admission run (assert_circuit_allows_request run.cooldown w run.started)
