-- ===== src/Types/Article.antt =====
-- src/types/article.ts: articles, and the test that a value read from outside is a list of them.
pub mod Laws
use news_api.Base.{
  ℕ, String, Bool, true, false, ◌&&◌, Option, none, some, List, [], ◌∷◌, str_eq, if◌then◌else◌, all,
}

-- A value that JSON.parse can give. The names of an object's fields are distinct there.
mutual
  pub data Json : Type 0 where
    null : Json
    boolean : Bool → Json
    number : ℕ → Json
    str : String → Json
    arr : Items → Json
    obj : Fields → Json

  pub data Items : Type 0 where
    nil : Items
    cons : Json → Items → Items

  pub data Fields : Type 0 where
    end : Fields
    field : String → Json → Fields → Fields

abbrev pub items : Items → List Json
items nil = []
items (cons v vs) = v ∷ items vs

-- The elements of an array.
abbrev pub elements : Json → List Json
elements (arr vs) = items vs
elements _ = []

-- A field of an object; `none` is `undefined`.
unfoldable pub get_field : String → Fields → Option Json
get_field key end = none
get_field key (field k v fs) = if str_eq k key then some v else get_field key fs

-- `value.key` of a record: an array has none of the fields asked for.
abbrev pub property : String → Json → Option Json
property key (obj fs) = get_field key fs
property key _ = none

pub record ArticleSource : Type 0 where
  pub name : String
  pub url : String

pub record Article : Type 0 where
  pub title : String
  pub description : Option String
  pub content : Option String
  pub url : String
  pub image : Option String
  pub published_at : String
  pub source : ArticleSource

abbrev pub is_record : Json → Bool
is_record (obj fs) = true
is_record (arr vs) = true
is_record _ = false

abbrev pub is_string : Option Json → Bool
is_string (some (str s)) = true
is_string _ = false

abbrev pub is_string_or_null : Option Json → Bool
is_string_or_null (some null) = true
is_string_or_null v = is_string v

unfoldable pub is_article_source : Option Json → Bool
is_article_source none = false
is_article_source (some v) =
    is_record v && is_string (property "name" v) && is_string (property "url" v)

unfoldable pub is_article : Json → Bool
unfolding is_article_source
is_article v =
    is_record v
    && is_string (property "title" v)
    && is_string_or_null (property "description" v)
    && is_string_or_null (property "content" v)
    && is_string (property "url" v)
    && is_string_or_null (property "image" v)
    && is_string (property "publishedAt" v)
    && is_article_source (property "source" v)

unfoldable pub is_article_list : Json → Bool
unfolding is_article
is_article_list (arr vs) = all is_article (items vs)
is_article_list _ = false
