-- ===== src/Cache/Redis/Laws.antt =====
-- What the documentation of Redis promises of the commands that the stores send, and that reading an
-- entry back gives what was stored.
-- `left` is the time that a key has left, in milliseconds; `elapse` lets time pass.
use news_api.Errors.{ok}
use news_api.Types.Article.{Json}
use news_api.Js.Text.{Text}
use news_api.Cache.Redis.{
  answered, JsonText, Redis, Json, Text, redis_get, redis_set, parse_redis_cache_value, ok,
}
use news_api.Base.{
  ℕ, ◌-◌, ◌*◌, ◌<◌, String, ◌≡◌, inl, inr, false, not, ◌&&◌, none, some, arith, ltb, str_eq,
  if◌then◌else◌, Bool-cases, is_some,
}

pub record RedisLaws (R : Redis) : Type 0 where
  pub elapse : ℕ → R.S → R.S
  pub left : String → R.S → ℕ
  pub nx-done :
      (k : String) (v : Text) (ttl : ℕ) (s : R.S)
      → (R.set_px_nx k v ttl s).1 ≡ not (is_some (R.get k s))
  pub nx-get :
      (k q : String) (v : Text) (ttl : ℕ) (s : R.S)
      → 0 < ttl
      → R.get q (R.set_px_nx k v ttl s).0
        ≡ (if str_eq k q && not (is_some (R.get k s)) then some v else R.get q s)
  pub nx-left :
      (k q : String) (v : Text) (ttl : ℕ) (s : R.S)
      → left q (R.set_px_nx k v ttl s).0
        ≡ (if str_eq k q && not (is_some (R.get k s)) then ttl else left q s)
  pub setex-get :
      (k q : String) (v : Text) (ttl : ℕ) (s : R.S)
      → 0 < ttl
      → R.get q (R.setex k ttl v s) ≡ (if str_eq k q then some v else R.get q s)
  pub setex-left :
      (k q : String) (v : Text) (ttl : ℕ) (s : R.S)
      → left q (R.setex k ttl v s) ≡ (if str_eq k q then 1_000 * ttl else left q s)
  pub del-get :
      (k q : String) (s : R.S) → R.get q (R.del k s) ≡ (if str_eq k q then none else R.get q s)
  pub del-left : (k q : String) (s : R.S) → str_eq k q ≡ false → left q (R.del k s) ≡ left q s
  pub pexpire-done : (k : String) (ttl : ℕ) (s : R.S) → (R.pexpire k ttl s).1 ≡ is_some (R.get k s)
  pub pexpire-get :
      (k q : String) (ttl : ℕ) (s : R.S) → 0 < ttl → R.get q (R.pexpire k ttl s).0 ≡ R.get q s
  pub pexpire-left :
      (k q : String) (ttl : ℕ) (s : R.S)
      → left q (R.pexpire k ttl s).0 ≡ (if str_eq k q && is_some (R.get k s) then ttl else left q s)
  pub elapse-get :
      (d : ℕ) (q : String) (s : R.S)
      → R.get q (elapse d s) ≡ (if ltb d (left q s) then R.get q s else none)
  pub elapse-left : (d : ℕ) (q : String) (s : R.S) → left q (elapse d s) ≡ left q s - d

module _ (R : Redis) (laws : RedisLaws R) where
  open laws use {elapse, left, setex-get, setex-left, elapse-get, del-get}

  get-elapse_setex :
      (key q : String) (raw : Text) (ttl d : ℕ) (s : R.S)
      → 0 < ttl
      → R.get q (elapse d (R.setex key ttl raw s)) ≡ (
          if str_eq key q
          then (if ltb d (1_000 * ttl) then some raw else none)
          else R.get q (elapse d s))
  get-elapse_setex key q raw ttl d s pos = ground (
    arith,
    elapse-get d q (R.setex key ttl raw s),
    elapse-get d q s,
    setex-get key q raw ttl s pos,
    setex-left key q raw ttl s,
  )

  -- After an entry has been stored and some time has passed, reading gives the stored value as long
  -- as its time, given in seconds, is not over, and nothing after that; every other key reads as if only the time had
  -- passed. The JSON text of the value has to parse to the value, and the time to be positive.
  pub redis_get-set :
      (json : JsonText) (key q : String) (v : Json) (ttl d : ℕ) (s : R.S)
      → json.parse (json.stringify v) ≡ some v
      → 0 < ttl
      → (redis_get R json answered q (elapse d (redis_set R json answered key v ttl s).0)).1 ≡ (
          if str_eq key q
          then (if ltb d (1_000 * ttl) then ok (some v) else ok none)
          else (redis_get R json answered q (elapse d s)).1)
  unfolding redis_get redis_set parse_redis_cache_value
  redis_get-set json key q v ttl d s back pos = elim (Bool-cases (str_eq key q)) [
    | inl same ↦ elim (Bool-cases (ltb d (1_000 * ttl))) [
      | inl early ↦ rw (
        get-elapse_setex key q (json.stringify v) ttl d s pos,
        same,
        early,
        parse_redis_cache_value,
        back,
      )
      | inr late ↦ rw (get-elapse_setex key q (json.stringify v) ttl d s pos, same, late)
    ]
    | inr other ↦ rw (get-elapse_setex key q (json.stringify v) ttl d s pos, other)
  ]
