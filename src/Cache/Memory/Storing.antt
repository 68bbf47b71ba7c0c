-- ===== src/Cache/Memory/Storing.antt =====
-- What the operations of the in-process store do, and its invariant.
use news_api.Cache.Memory.Recency.{
  IsDistinct, contains-drop, contains-remove, remove_absent, touch-IsDistinct, contains-touch,
  remove-IsDistinct, drop-IsDistinct,
}
use news_api.Cache.Memory.Eviction.{NodeCacheLaws, Covers, HasRoom, evict_while_full-HasRoom}
use news_api.Cache.Memory.{
  NodeCache, MemoryStore, contains, make_room, store_get, store_set, touch, remove,
}
use news_api.Base.{
  ℕ, ◌+◌, ◌≤◌, ◌<◌, String, ◌≡◌, ap, ◌∙◌, inl, inr, true, false, some, List, [], ◌∷◌, ◌++◌, arith,
  eq_refl, str_eq, if◌then◌else◌, Bool-cases, is_some, drop,
}

module _ (N : NodeCache) (max_keys : ℕ) (laws : NodeCacheLaws N max_keys) where
  open laws use {
    read, count-keys, del-read, del-keys, del-count, set-some, has-get, get-value, get-read,
    get-keys, get-count,
  }

  -- The invariant of the store between two operations.
  pub record IsMemoryStore (m : MemoryStore N) : Type 0 where
    pub covers : Covers N max_keys laws m.recency m.cache
    pub distinct : IsDistinct m.recency
    pub bounded : N.count m.cache ≤ max_keys

  -- The cache once the key itself has been taken out.
  without : String → N.S → N.S
  without key cache =
      if is_some (read key cache) then N.del key (N.get key cache).0 else (N.get key cache).0

  without-Covers :
      (key : String) (m : MemoryStore N)
      → Covers N max_keys laws m.recency m.cache
      → Covers N max_keys laws (remove key m.recency) (without key m.cache)
  unfolding without
  without-Covers key m h q there = elim (Bool-cases (is_some (read key m.cache))) [
    | inl present ↦
        let there' : contains q (N.keys (N.del key (N.get key m.cache).0)) ≡ true =
          rw present at there in
        let other : str_eq key q ≡ false = ground (arith, del-keys key q (N.get key m.cache).0) in
        let got : contains q (N.keys (N.get key m.cache).0) ≡ true =
          ground (arith, del-keys key q (N.get key m.cache).0) in
        contains-remove key q m.recency ∙ rw other (h q (get-keys key q m.cache got).0)
    | inr gone ↦
        let got : contains q (N.keys (N.get key m.cache).0) ≡ true = rw gone at there in
        let facts = get-keys key q m.cache got in
        let other : str_eq key q ≡ false = ground (arith, facts.1) in
        contains-remove key q m.recency ∙ rw other (h q facts.0)
  ]

  without-count : (key : String) (cache : N.S) → N.count (without key cache) ≤ N.count cache
  unfolding without
  without-count key cache = elim (Bool-cases (is_some (read key cache))) [
    | inl present ↦
        rw present (omega (arith, del-count key (N.get key cache).0, get-count key cache))
    | inr gone ↦ rw gone (get-count key cache)
  ]

  without-read :
      (key q : String) (cache : N.S)
      → str_eq key q ≡ false
      → read q (without key cache) ≡ read q cache
  unfolding without
  without-read key q cache other = elim (Bool-cases (is_some (read key cache))) [
    | inl present ↦
        rw present (del-read key q (N.get key cache).0 ∙ rw other (get-read key q cache))
    | inr gone ↦ rw gone (get-read key q cache)
  ]

  make_room-HasRoom :
      (key : String) (m : MemoryStore N)
      → 0 < max_keys
      → IsMemoryStore m
      → HasRoom N max_keys laws
          (remove key m.recency)
          (without key m.cache)
          m.evictions
          (make_room N max_keys key m)
  unfolding make_room without
  make_room-HasRoom key m pos h = rw (has-get key m.cache) (
      evict_while_full-HasRoom N max_keys laws _ (remove key m.recency) _ m.evictions pos
        (remove-IsDistinct key m.recency h.distinct) (without-Covers key m h.covers) (omega arith))

  -- What storing a value under a key does.
  pub record IsStored (key : String) (value : N.V) (m m' : MemoryStore N) : Type 0 where
    pub valid : IsMemoryStore m'
    pub stored : read key m'.cache ≡ some value
    pub evicted : ℕ
    pub order : m'.recency ≡ drop evicted (remove key m.recency) ++ key ∷ []
    pub counted : m'.evictions ≡ m.evictions + evicted
    pub needed : N.count m.cache < max_keys → evicted ≡ 0
    pub kept :
        (q : String)
        → str_eq key q ≡ false
        → contains q m'.recency ≡ true
        → read q m'.cache ≡ read q m.cache

  absent-drop :
      (key : String) (n : ℕ) (l : List String)
      → contains key l ≡ false
      → contains key (drop n l) ≡ false
  absent-drop key n l e = elim (Bool-cases (contains key (drop n l))) [
    | inl there ↦ absurd (ground (arith, contains-drop key n l there))
    | inr gone ↦ gone
  ]

  HasRoom-absent :
      (key : String) (m r : MemoryStore N)
      → HasRoom N max_keys laws (remove key m.recency) (without key m.cache) m.evictions r
      → contains key r.recency ≡ false
  HasRoom-absent key m r room = rw room.order (
      absent-drop key room.evicted (remove key m.recency)
        (contains-remove key key m.recency ∙ rw (eq_refl key)))

  put-IsStored :
      (key : String) (value : N.V) (m r : MemoryStore N) (cache : N.S)
      → IsMemoryStore m
      → HasRoom N max_keys laws (remove key m.recency) (without key m.cache) m.evictions r
      → N.count cache ≤ N.count r.cache + 1
      → ((q : String) → read q cache ≡ (if str_eq key q then some value else read q r.cache))
      → ((q : String)
          → contains q (N.keys cache)
            ≡ (if str_eq key q then true else contains q (N.keys r.cache)))
      → IsStored key value m (record r { cache = cache; recency = touch key r.recency })
  unfolding touch
  put-IsStored key value m r cache h room count reads keys =
      let absent = HasRoom-absent key m r room in
      let same : remove key r.recency ≡ r.recency = remove_absent key r.recency absent in
      record {
        valid = record {
          covers =
              λ q there. contains-touch key q r.recency ∙ ground (arith, keys q, room.covers q);
          distinct = touch-IsDistinct key r.recency (
              rw room.order
                (drop-IsDistinct room.evicted _ (remove-IsDistinct key m.recency h.distinct)));
          bounded = omega (arith, room.room);
        };
        stored = reads key ∙ rw (eq_refl key);
        evicted = room.evicted;
        order = ap (λ l. l ++ key ∷ []) (same ∙ room.order);
        counted = room.counted;
        needed = λ free. room.needed (omega (arith, without-count key m.cache));
        kept = λ q other there.
            let still : contains q r.recency ≡ true =
              ground (arith, contains-touch key q r.recency) in
            reads q ∙ rw other (room.kept q still ∙ without-read key q m.cache other);
      }

  -- On a store in its invariant, with a limit of at least one key, storing never fails: the value
  -- can be read at once; the invariant still holds; what had to go, and only if the store was
  -- full, are the keys used least recently; and each other key that stays reads as before.
  pub store_set-IsStored :
      (key : String) (value : N.V) (ttl : ℕ) (m : MemoryStore N)
      → 0 < max_keys
      → IsMemoryStore m
      → (m' : MemoryStore N) × (store_set N max_keys key value ttl m ≡ some m')
        × IsStored key value m m'
  unfolding store_set
  store_set-IsStored key value ttl m pos h =
      let room = make_room-HasRoom key m pos h in
      let roomy = make_room N max_keys key m in
      let (cache, set, count, reads, keys) = set-some key value ttl roomy.cache room.room in
      (
        record roomy { cache = cache; recency = touch key roomy.recency },
        rw (set, store_set),
        put-IsStored key value m roomy cache h room count reads keys,
      )

  -- On a store in its invariant, reading a key gives the value that the cache has for it, the
  -- invariant still holds, and every key reads as before.
  pub store_get-IsMemoryStore :
      (key : String) (m : MemoryStore N)
      → IsMemoryStore m
      → IsMemoryStore (store_get N key m).0
        × ((store_get N key m).1 ≡ read key m.cache)
        × ((q : String) → read q (store_get N key m).0.cache ≡ read q m.cache)
  unfolding store_get
  store_get-IsMemoryStore key m h = (
    record {
      covers = get_covers;
      distinct = get_distinct;
      bounded = omega (arith, get-count key m.cache, h.bounded);
    },
    get-value key m.cache,
    λ q. get-read key q m.cache,
  )
    where
      get_distinct : IsDistinct (store_get N key m).0.recency
      get_distinct = elim (Bool-cases (is_some (N.get key m.cache).1)) [
        | inl hit ↦ rw hit (touch-IsDistinct key m.recency h.distinct)
        | inr miss ↦ rw miss (remove-IsDistinct key m.recency h.distinct)
      ]

      get_covers : Covers N max_keys laws (store_get N key m).0.recency (store_get N key m).0.cache
      get_covers q there =
          let facts = get-keys key q m.cache there in
          elim (Bool-cases (is_some (N.get key m.cache).1)) [
            | inl hit ↦ rw hit (contains-touch key q m.recency ∙ ground (arith, h.covers q facts.0))
            | inr miss ↦
                let gone : is_some (read key m.cache) ≡ false = rw get-value at miss in
                rw miss
                  (contains-remove key q m.recency ∙ ground (arith, facts.1, h.covers q facts.0))
          ]
