-- ===== src/Types/Search.antt =====
-- src/types/search.ts: the options of a search.
use news_api.Utils.Validation.{ArticleSearchFilters}
use news_api.Js.Text.{Text}
use news_api.Base.{ℕ}

pub record ArticleSearchOptions : Type 0 where
  pub query : Text
  pub count : ℕ
  pub page : ℕ
  pub filters : ArticleSearchFilters
