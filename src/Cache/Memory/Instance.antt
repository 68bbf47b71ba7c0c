-- ===== src/Cache/Memory/Instance.antt =====
-- A cache that keeps what `NodeCache` promises: pairs of a key and a value that never expire. It
-- shows that the promises can hold together.
use news_api.Cache.Memory.Eviction.{NodeCacheLaws}
use news_api.Cache.Memory.{NodeCache, contains}
use news_api.Base.{
  ℕ, ◌≤◌, String, ◌≡◌, refl, true, false, Option, none, some, List, [], ◌∷◌, arith, eq_iff, ltb,
  str_eq, if◌then◌else◌, is_some, length,
}

abbrev pub Pairs : Type 0
Pairs = List (String × ℕ)

unfoldable pub pair_keys : Pairs → List String
pair_keys [] = []
pair_keys (p ∷ ps) = p.0 ∷ pair_keys ps

unfoldable pub pair_read : String → Pairs → Option ℕ
pair_read q [] = none
pair_read q (p ∷ ps) = if str_eq p.0 q then some p.1 else pair_read q ps

unfoldable pub pair_del : String → Pairs → Pairs
pair_del k [] = []
pair_del k (p ∷ ps) = let rest = pair_del k ps in if str_eq p.0 k then rest else p ∷ rest

unfoldable pub pair_set : ℕ → String → ℕ → ℕ → Pairs → Option Pairs
unfolding pair_keys pair_del
pair_set max_keys k v ttl s =
    if ltb (length (pair_keys s)) max_keys then some ((k, v) ∷ pair_del k s) else none

abbrev pub pair_cache : ℕ → NodeCache
pair_cache max_keys = record {
  S = Pairs;
  V = ℕ;
  get = λ k s. (s, pair_read k s);
  has = λ k s. (s, is_some (pair_read k s));
  keys = pair_keys;
  count = λ s. length (pair_keys s);
  set = pair_set max_keys;
  del = pair_del;
}

pair_read-del :
    (k q : String) (s : Pairs)
    → pair_read q (pair_del k s) ≡ (if str_eq k q then none else pair_read q s)
unfolding pair_read pair_del
pair_read-del k q [] = ground arith
pair_read-del k q (p ∷ s) =
    ground (arith, pair_read-del k q s, eq_iff p.0 k, eq_iff p.0 q, eq_iff k q)

pair_keys-del :
    (k q : String) (s : Pairs)
    → contains q (pair_keys (pair_del k s))
      ≡ (if str_eq k q then false else contains q (pair_keys s))
unfolding pair_keys pair_del contains
pair_keys-del k q [] = ground arith
pair_keys-del k q (p ∷ s) =
    ground (arith, pair_keys-del k q s, eq_iff p.0 k, eq_iff p.0 q, eq_iff k q)

length-pair_del :
    (k : String) (s : Pairs) → length (pair_keys (pair_del k s)) ≤ length (pair_keys s)
unfolding pair_keys pair_del
length-pair_del k [] = omega arith
length-pair_del k (p ∷ s) = ground (arith, length-pair_del k s)

-- A key of the cache can be read.
pair_read_of_contains :
    (q : String) (s : Pairs) → contains q (pair_keys s) ≡ true → is_some (pair_read q s) ≡ true
unfolding pair_keys pair_read contains
pair_read_of_contains q [] h = absurd (ground arith)
pair_read_of_contains q (p ∷ s) h = ground (arith, pair_read_of_contains q s)

-- The promises hold of it.
pub pair_cache-laws : (max_keys : ℕ) → NodeCacheLaws (pair_cache max_keys) max_keys
unfolding pair_set pair_keys pair_read contains
pair_cache-laws max_keys = record {
  read = pair_read;
  get-value = λ k s. refl;
  get-read = λ k q s. refl;
  get-keys = λ k q s there. (there, ground (arith, eq_iff k q, pair_read_of_contains q s there));
  get-count = λ k s. omega arith;
  has-get = λ k s. refl;
  count-keys = λ s. refl;
  del-read = pair_read-del;
  del-keys = pair_keys-del;
  del-count = length-pair_del;
  set-some = λ k v ttl s room. (
    (k, v) ∷ pair_del k s,
    ground arith,
    omega (arith, length-pair_del k s),
    (λ q. ground (arith, pair_read-del k q s)),
    (λ q. ground (arith, pair_keys-del k q s)),
  );
}
