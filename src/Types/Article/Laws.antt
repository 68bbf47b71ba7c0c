-- ===== src/Types/Article/Laws.antt =====
-- The test for an article accepts exactly the values of the interface `Article`.
use news_api.Types.Article.{
  Json, is_article, is_article_source, is_string_or_null, Article, ArticleSource, is_string, null,
  property, str, boolean, is_record, number, obj, arr,
}
use news_api.Base.{String, ◌≡◌, refl, ◌↔◌, true, Option, none, some, arith, and-split}

-- A nullable text as JSON.
abbrev pub nullable : Option String → Json
nullable none = null
nullable (some s) = str s

pub record RepresentsSource (v : Json) (s : ArticleSource) : Type 0 where
  pub name : property "name" v ≡ some (str s.name)
  pub url : property "url" v ≡ some (str s.url)

-- The value has the fields of the article, each with its type; other fields may stand beside.
pub record Represents (v : Json) (a : Article) : Type 0 where
  pub title : property "title" v ≡ some (str a.title)
  pub description : property "description" v ≡ some (nullable a.description)
  pub content : property "content" v ≡ some (nullable a.content)
  pub url : property "url" v ≡ some (str a.url)
  pub image : property "image" v ≡ some (nullable a.image)
  pub published_at : property "publishedAt" v ≡ some (str a.published_at)
  pub source : (s : Json) × (property "source" v ≡ some s) × RepresentsSource s a.source

is_string_sound : (o : Option Json) → is_string o ≡ true → (s : String) × (o ≡ some (str s))
is_string_sound none h = absurd (ground arith)
is_string_sound (some (str s)) h = (s, refl)
is_string_sound (some null) h = absurd (ground arith)
is_string_sound (some (boolean b)) h = absurd (ground arith)
is_string_sound (some (number n)) h = absurd (ground arith)
is_string_sound (some (arr vs)) h = absurd (ground arith)
is_string_sound (some (obj fs)) h = absurd (ground arith)

is_string_or_null_sound :
    (o : Option Json) → is_string_or_null o ≡ true → (s : Option String) × (o ≡ some (nullable s))
is_string_or_null_sound (some null) h = (none, refl)
is_string_or_null_sound (some (str s)) h = (some s, refl)
is_string_or_null_sound o h = absurd (ground arith)

nullable-is_string_or_null : (s : Option String) → is_string_or_null (some (nullable s)) ≡ true
nullable-is_string_or_null none = refl
nullable-is_string_or_null (some s) = refl

source_sound :
    (o : Option Json)
    → is_article_source o ≡ true
    → (v : Json) × (s : ArticleSource) × (o ≡ some v) × RepresentsSource v s
unfolding is_article_source
source_sound none h = absurd (ground arith)
source_sound (some v) h =
    let (name, n) = is_string_sound (property "name" v) (ground arith) in
    let (url, u) = is_string_sound (property "url" v) (ground arith) in
    (v, record { name = name; url = url }, refl, record { name = n; url = u })

-- What `isArticle` accepts is an article.
is_article_sound : (v : Json) → is_article v ≡ true → (a : Article) × Represents v a
unfolding is_article
is_article_sound v h =
    let (h₆, a₇) = and-split _ (is_article_source (property "source" v)) h in
    let (h₅, a₆) = and-split _ (is_string (property "publishedAt" v)) h₆ in
    let (h₄, a₅) = and-split _ (is_string_or_null (property "image" v)) h₅ in
    let (h₃, a₄) = and-split _ (is_string (property "url" v)) h₄ in
    let (h₂, a₃) = and-split _ (is_string_or_null (property "content" v)) h₃ in
    let (h₁, a₂) = and-split _ (is_string_or_null (property "description" v)) h₂ in
    let (_, a₁) = and-split _ (is_string (property "title" v)) h₁ in
    let (title, t) = is_string_sound _ a₁ in
    let (description, d) = is_string_or_null_sound _ a₂ in
    let (content, c) = is_string_or_null_sound _ a₃ in
    let (url, u) = is_string_sound _ a₄ in
    let (image, i) = is_string_or_null_sound _ a₅ in
    let (published, p) = is_string_sound _ a₆ in
    let (w, source, s, r) = source_sound _ a₇ in
    (
      record {
        title = title;
        description = description;
        content = content;
        url = url;
        image = image;
        published_at = published;
        source = source;
      },
      record {
        title = t;
        description = d;
        content = c;
        url = u;
        image = i;
        published_at = p;
        source = (w, s, r);
      },
    )

is_record_of_property : (v w : Json) (key : String) → property key v ≡ some w → is_record v ≡ true
is_record_of_property (obj fs) w key h = refl
is_record_of_property v w key h = absurd (ground arith)

source_complete :
    (v : Json) (s : ArticleSource) → RepresentsSource v s → is_article_source (some v) ≡ true
unfolding is_article_source
source_complete v s r = rw (is_record_of_property v _ "name" r.name, r.name, r.url)

is_article_complete : (v : Json) (a : Article) → Represents v a → is_article v ≡ true
unfolding is_article
is_article_complete v a r =
    let (w, s, rep) = r.source in
    rw (
      is_record_of_property v _ "title" r.title,
      r.title,
      r.description,
      r.content,
      r.url,
      r.image,
      r.published_at,
      s,
      source_complete w a.source rep,
      nullable-is_string_or_null a.description,
      nullable-is_string_or_null a.content,
      nullable-is_string_or_null a.image,
    )

-- `isArticle` accepts exactly the values that represent an article.
pub is_article_iff : (v : Json) → (is_article v ≡ true) ↔ ((a : Article) × Represents v a)
is_article_iff v = (is_article_sound v, λ p. is_article_complete v p.0 p.1)
