-- ===== src/Types/Tests.antt =====
-- The test for an article at a concrete value.
use news_api.Types.Article.Laws.{Represents, is_article_iff}
use news_api.Types.Article.{
  Json, is_article, Article, is_article_source, obj, field, get_field, str, null, end,
}
use news_api.Base.{◌≡◌, refl, ◌↔◌, true}

abbrev article_json : Json
article_json = obj (
    field "title" (str "t") (
      field "description" null (
        field "content" (str "c") (
          field "url" (str "u") (
            field "image" null (
              field "publishedAt" (str "2024-01-01T00:00:00Z") (
                field "source" (obj (field "name" (str "n") (field "url" (str "s") end))) end)))))))

is_article_iff_example :
    (is_article article_json ≡ true) ↔ ((a : Article) × Represents article_json a)
is_article_iff_example = is_article_iff article_json

accepted : is_article article_json ≡ true
unfolding is_article is_article_source get_field
accepted = refl
