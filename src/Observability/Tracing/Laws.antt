-- ===== src/Observability/Tracing/Laws.antt =====
-- What a span records of an error, and what the work under it gives.
use news_api.Js.Text.{codes}
use news_api.Observability.Tracing.{
  Span, is_type_text, stable_error_type, with_span, mark_span_error, end_span, is_type_option,
  new_span, marked_result, name_or, code_of, is_type_char, codes,
}
use news_api.Base.{
  suc, String, ◌≡◌, refl, inl, inr, true, Option, none, some, ◌∷◌, arith, Bool-cases, get_or, all,
  false, if◌then◌else◌, ℕ, ◌<◌, Bool, length, All, List, [], ◌≤◌,
}
use news_api.Errors.{ok, throw, no_error, error, Result, Thrown}

-- 1 to 64 characters, each a letter, a digit or one of `_.-`.
abbrev pub IsPlainText : String → Type 0
IsPlainText s =
    (0 < length (codes s)) × (length (codes s) ≤ 64) × All (λ c. is_type_char c ≡ true) (codes s)

-- There is no such text, or it is not plain.
abbrev pub HasNoPlain : Option String → Type 0
HasNoPlain none = Unit {0}
HasNoPlain (some s) = ¬ IsPlainText s

abbrev pub name_of : Thrown → Option String
name_of no_error = none
name_of (error e) = some e.name

-- The classification of a thrown value, whose own code is `code` if it is no error: its code if that
-- is plain; otherwise its name if it is an error with a plain one; and otherwise the fallback.
pub data IsStableType (code : Option String) (fallback : String) (e : Thrown)
    : String → Type 0 where
  of_code : (s : String) → code_of e code ≡ some s → IsPlainText s → IsStableType code fallback e s
  of_name :
      (s : String)
      → HasNoPlain (code_of e code)
      → name_of e ≡ some s
      → IsPlainText s
      → IsStableType code fallback e s
  of_fallback :
      HasNoPlain (code_of e code) → HasNoPlain (name_of e) → IsStableType code fallback e fallback

All-of_all : (p : ℕ → Bool) (l : List ℕ) → all p l ≡ true → All (λ c. p c ≡ true) l
All-of_all p [] h = tt
All-of_all p (c ∷ l) h = (ground arith, All-of_all p l (ground arith))

all-of_All : (p : ℕ → Bool) (l : List ℕ) → All (λ c. p c ≡ true) l → all p l ≡ true
all-of_All p [] h = refl
all-of_All p (c ∷ l) (good, h) = rw (good, all-of_All p l h) refl

is_type_text-IsPlainText : (s : String) → is_type_text s ≡ true → IsPlainText s
unfolding is_type_text
is_type_text-IsPlainText s h =
    let chars : all is_type_char (codes s) ≡ true = ground arith in
    (ground arith, ground arith, All-of_all is_type_char (codes s) chars)

not-IsPlainText : (s : String) → is_type_text s ≡ false → ¬ IsPlainText s
unfolding is_type_text
not-IsPlainText s h (some_char, few, good) =
    let chars = all-of_All is_type_char (codes s) good in absurd (ground (arith, chars))

stable_error_type-IsStableType :
    (err : Thrown) (code : Option String) (fallback : String)
    → IsStableType code fallback err (stable_error_type err code fallback)
unfolding stable_error_type
stable_error_type-IsStableType err code fallback = by_code (code_of err code) refl
  where
    by_name :
        HasNoPlain (code_of err code)
        → (e : Thrown) → err ≡ e
        → IsStableType code fallback err (name_or e fallback)
    by_name none_plain no_error same = of_fallback none_plain (rw same tt)
    by_name none_plain (error e) same = elim (Bool-cases (is_type_text e.name)) [
      | inl good ↦
          rw good (of_name e.name none_plain (rw same refl) (is_type_text-IsPlainText e.name good))
      | inr bad ↦ rw bad (of_fallback none_plain (rw same (not-IsPlainText e.name bad)))
    ]

    by_code :
        (o : Option String)
        → code_of err code ≡ o
        → IsStableType code fallback err
            (if is_type_option o then get_or o fallback else name_or err fallback)
    by_code none e = by_name (rw e tt) err refl
    by_code (some s) e = elim (Bool-cases (is_type_text s)) [
      | inl good ↦ rw good (of_code s e (is_type_text-IsPlainText s good))
      | inr bad ↦ rw bad (by_name (rw e (not-IsPlainText s bad)) err refl)
    ]

-- What a span holds after the work it stands for, for the result of the work.
pub data IsTraced {A : Type 0} (code : Option String) (worked : Span)
    : Span → Result A → Type 0 where
  succeeded : (a : A) → IsTraced code worked (end_span worked) (ok a)
  failed :
      (e : Thrown) (type : String)
      → IsStableType code "unknown_error" e type
      → IsTraced code worked
          (record {
            error_type = some type;
            exceptions = (type, type) ∷ worked.exceptions;
            is_error = true;
            ended = suc worked.ended;
          })
          (throw e)

-- The work under a span gives its own result or error, and its span ends once. What is thrown is
-- recorded as an error whose type, name and message are all one classification: its code, if that
-- has 1 to 64 plain characters; or else its name, if it is an error and the name has; or else the
-- fallback, whatever its message is.
pub with_span-IsTraced :
    {A : Type 0} (code : Option String) (operation : Span → Span × Result A)
    → IsTraced code (operation new_span).0 (with_span code operation).0 (operation new_span).1
      × ((with_span code operation).1 ≡ (operation new_span).1)
unfolding with_span mark_span_error
with_span-IsTraced code operation = (traced (operation new_span).0 (operation new_span).1, refl)
  where
    traced :
        {B : Type 0} (worked : Span) (r : Result B)
        → IsTraced code worked (end_span (marked_result code r worked)) r
    traced worked (ok a) = succeeded a
    traced worked (throw e) = failed e _ (stable_error_type-IsStableType e code "unknown_error")
