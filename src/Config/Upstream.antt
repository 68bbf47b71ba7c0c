-- ===== src/Config/Upstream.antt =====
-- src/config/upstream.ts: the provider's address and time limits.
use news_api.Base.{ℕ, Option, none, some, [], ◌∷◌, ◌==◌, if◌then◌else◌, length}
use news_api.Js.Text.{Text, codes, trim}
use news_api.Config.Numbers.{resolve_positive_integer_env}

unfoldable pub resolve_upstream_timeout_ms : Option Text → ℕ
resolve_upstream_timeout_ms raw = resolve_positive_integer_env raw 15_000 60_000

unfoldable pub resolve_upstream_total_timeout_ms : Option Text → ℕ
resolve_upstream_total_timeout_ms raw = resolve_positive_integer_env raw 60_000 120_000

-- `value.replace(/\/+$/, "")`: the slashes at the end are dropped.
unfoldable pub drop_end_slashes : Text → Text
drop_end_slashes [] = []
drop_end_slashes (c ∷ s) = elim (drop_end_slashes s) [
  | [] ↦ if c == b'/' then [] else c ∷ []
  | d ∷ r ↦ c ∷ d ∷ r
]

-- With `raw?.trim()` empty, the default address.
unfoldable pub resolve_upstream_base_url : Option Text → Text
unfolding drop_end_slashes trim
resolve_upstream_base_url none = codes "https://gnews.io/api/v4"
resolve_upstream_base_url (some raw) =
    if length (trim raw) == 0 then codes "https://gnews.io/api/v4" else drop_end_slashes (trim raw)
