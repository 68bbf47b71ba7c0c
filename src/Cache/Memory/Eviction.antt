-- ===== src/Cache/Memory/Eviction.antt =====
-- Making room: what `NodeCache` promises, and what the loop of evictions leaves.
use news_api.Cache.Memory.Recency.{IsDistinct, contains-drop, remove_self}
use news_api.Cache.Memory.{
  NodeCache, MemoryStore, contains, evict_while_full, evict_least_recently_used,
}
use news_api.Base.{
  ℕ, zero, suc, ◌+◌, ◌≤◌, ◌<◌, String, ◌≡◌, refl, ◌∙◌, inl, inr, true, false, not, ◌&&◌, Option,
  none, some, List, [], ◌∷◌, arith, eq_iff, eq_refl, leb, str_eq, if◌then◌else◌, Bool-cases,
  is_some, length, drop,
}

-- What the documentation of `NodeCache` promises. `read` is the value that a read at this moment
-- returns; it shows no state.
pub record NodeCacheLaws (N : NodeCache) (max_keys : ℕ) : Type 0 where
  pub read : String → N.S → Option N.V
  pub get-value : (k : String) (s : N.S) → (N.get k s).1 ≡ read k s
  pub get-read : (k q : String) (s : N.S) → read q (N.get k s).0 ≡ read q s
  pub get-keys :
      (k q : String) (s : N.S)
      → contains q (N.keys (N.get k s).0) ≡ true
      → (contains q (N.keys s) ≡ true) × (str_eq k q && not (is_some (read k s)) ≡ false)
  pub get-count : (k : String) (s : N.S) → N.count (N.get k s).0 ≤ N.count s
  pub has-get : (k : String) (s : N.S) → N.has k s ≡ ((N.get k s).0, is_some (read k s))
  pub count-keys : (s : N.S) → N.count s ≡ length (N.keys s)
  pub del-read :
      (k q : String) (s : N.S) → read q (N.del k s) ≡ (if str_eq k q then none else read q s)
  pub del-keys :
      (k q : String) (s : N.S)
      → contains q (N.keys (N.del k s)) ≡ (if str_eq k q then false else contains q (N.keys s))
  pub del-count : (k : String) (s : N.S) → N.count (N.del k s) ≤ N.count s
  pub set-some :
      (k : String) (v : N.V) (ttl : ℕ) (s : N.S)
      → N.count s < max_keys
      → (s' : N.S) × (N.set k v ttl s ≡ some s')
        × (N.count s' ≤ N.count s + 1)
        × ((q : String) → read q s' ≡ (if str_eq k q then some v else read q s))
        × ((q : String)
            → contains q (N.keys s') ≡ (if str_eq k q then true else contains q (N.keys s)))

module _ (N : NodeCache) (max_keys : ℕ) (laws : NodeCacheLaws N max_keys) where
  open laws use {
    read, count-keys, del-read, del-keys, del-count, set-some, has-get, get-value, get-read,
    get-keys, get-count,
  }

  -- Every key of the cache is in the recency map.
  abbrev pub Covers : List String → N.S → Type 0
  Covers recency cache = (q : String) → contains q (N.keys cache) ≡ true → contains q recency ≡ true

  pub empty_of_Covers : (cache : N.S) → Covers [] cache → N.count cache ≡ 0
  unfolding contains
  empty_of_Covers cache h = count-keys cache ∙ none_left (N.keys cache) h
    where
      none_left :
          (l : List String)
          → ((q : String) → contains q l ≡ true → contains q [] ≡ true)
          → length l ≡ 0
      none_left [] h = refl
      none_left (x ∷ l) h = absurd (ground (arith, h x, eq_refl x))

  -- What making room does: the `evicted` oldest keys of the recency map are gone, and no other key
  -- reads differently.
  pub record HasRoom (recency : List String) (cache : N.S) (evictions : ℕ) (m : MemoryStore N)
      : Type 0 where
    pub evicted : ℕ
    pub room : N.count m.cache < max_keys
    pub covers : Covers m.recency m.cache
    pub order : m.recency ≡ drop evicted recency
    pub counted : m.evictions ≡ evictions + evicted
    pub needed : N.count cache < max_keys → evicted ≡ 0
    pub kept : (q : String) → contains q m.recency ≡ true → read q m.cache ≡ read q cache

  -- One eviction, of the oldest key.
  pub Covers-del :
      (oldest : String) (rest : List String) (cache : N.S)
      → Covers (oldest ∷ rest) cache
      → Covers rest (N.del oldest cache)
  unfolding contains
  Covers-del oldest rest cache h q there = ground (arith, h q, del-keys oldest q cache)

  pub no_eviction :
      (recency : List String) (cache : N.S) (evictions : ℕ)
      → Covers recency cache
      → N.count cache < max_keys
      → HasRoom recency cache evictions
          (record { cache = cache; recency = recency; evictions = evictions })
  no_eviction recency cache evictions h room = record {
    evicted = 0;
    room = room;
    covers = h;
    order = refl;
    counted = omega arith;
    needed = λ _. refl;
    kept = λ q _. refl;
  }

  pub one_eviction :
      (oldest : String) (rest : List String) (cache : N.S) (evictions : ℕ) (m : MemoryStore N)
      → IsDistinct (oldest ∷ rest)
      → max_keys ≤ N.count cache
      → HasRoom rest (N.del oldest cache) (evictions + 1) m
      → HasRoom (oldest ∷ rest) cache evictions m
  one_eviction oldest rest cache evictions m d full h = record {
    evicted = suc h.evicted;
    room = h.room;
    covers = h.covers;
    order = h.order;
    counted = omega (arith, h.counted);
    needed = λ room. absurd (omega arith);
    kept = λ q there.
        let still : contains q rest ≡ true = contains-drop q h.evicted rest (rw h.order at there) in
        h.kept q there ∙ del-read oldest q cache ∙ ground (arith, eq_iff oldest q, d.0);
  }

  pub evict_while_full-HasRoom :
      (f : ℕ) (recency : List String) (cache : N.S) (evictions : ℕ)
      → 0 < max_keys
      → IsDistinct recency
      → Covers recency cache
      → length recency < f
      → HasRoom recency cache evictions (
          evict_while_full N max_keys f
            (record { cache = cache; recency = recency; evictions = evictions }))
  unfolding evict_while_full evict_least_recently_used
  evict_while_full-HasRoom zero recency cache evictions pos d h lt = elim lt [ ]
  evict_while_full-HasRoom (suc f) [] cache evictions pos d h lt =
      let empty = empty_of_Covers cache h in
      let roomy : leb max_keys (N.count cache) ≡ false = ground arith in
      rw roomy (no_eviction [] cache evictions h (omega arith))
  evict_while_full-HasRoom (suc f) (oldest ∷ rest) cache evictions pos d h lt =
      elim (Bool-cases (leb max_keys (N.count cache))) [
        | inl full ↦
            let ih =
              evict_while_full-HasRoom f rest (N.del oldest cache) (evictions + 1) pos d.1
                (Covers-del oldest rest cache h) (omega arith) in
            rw (full, remove_self oldest rest d)
              (one_eviction oldest rest cache evictions _ d (ground arith) ih)
        | inr roomy ↦ rw roomy (no_eviction (oldest ∷ rest) cache evictions h (ground arith))
      ]
