-- ===== src/Cache/Redis/Instance.antt =====
-- A server that keeps what Redis promises: each key with its value and the time it has left.
use news_api.Cache.Redis.Laws.{RedisLaws}
use news_api.Cache.Redis.{Redis}
use news_api.Js.Text.{Text}
use news_api.Base.{
  refl, ℕ, ◌-◌, ◌*◌, String, true, false, Option, none, some, arith, eq_iff, ltb, str_eq,
  if◌then◌else◌, is_some, ◌≡◌,
}

abbrev pub Keys : Type 0
Keys = String → Option (Text × ℕ)

abbrev pub value_of : Option (Text × ℕ) → Option Text
value_of none = none
value_of (some e) = some e.0

abbrev pub time_of : Option (Text × ℕ) → ℕ
time_of none = 0
time_of (some e) = e.1

abbrev pub pass : ℕ → Option (Text × ℕ) → Option (Text × ℕ)
pass d none = none
pass d (some e) = if ltb d e.1 then some (e.0, e.1 - d) else none

abbrev pub put_key : String → Option (Text × ℕ) → Keys → Keys
put_key k e s q = if str_eq k q then e else s q

abbrev pub with_time : ℕ → Option (Text × ℕ) → Option (Text × ℕ)
with_time ttl none = none
with_time ttl (some e) = some (e.0, ttl)

abbrev pub key_server : Redis
key_server = record {
  S = Keys;
  get = λ k s. value_of (s k);
  setex = λ k ttl v s. put_key k (some (v, 1_000 * ttl)) s;
  del = λ k s. put_key k none s;
  set_px_nx =
      λ k v ttl s. if is_some (s k) then (s, false) else (put_key k (some (v, ttl)) s, true);
  pexpire = λ k ttl s. (put_key k (with_time ttl (s k)) s, is_some (s k));
}

-- The promises hold of it.
pub key_server-laws : RedisLaws key_server
key_server-laws = record {
  elapse = λ d s q. pass d (s q);
  left = λ q s. time_of (s q);
  nx-done = λ k v ttl s. ground arith;
  nx-get = λ k q v ttl s pos. ground (arith, eq_iff k q);
  nx-left = λ k q v ttl s. ground (arith, eq_iff k q);
  setex-get = λ k q v ttl s pos. ground arith;
  setex-left = λ k q v ttl s. ground arith;
  del-get = λ k q s. ground arith;
  del-left = λ k q s h. ground arith;
  pexpire-done = λ k ttl s. ground arith;
  pexpire-get = λ k q ttl s pos. ground (arith, eq_iff k q);
  pexpire-left = λ k q ttl s. ground (arith, eq_iff k q);
  elapse-get = λ d q s. ground arith;
  elapse-left = λ d q s. ground arith;
}

pub left-key_server : (q : String) (s : Keys) → key_server-laws.left q s ≡ time_of (s q)
unfolding key_server-laws
left-key_server q s = refl
