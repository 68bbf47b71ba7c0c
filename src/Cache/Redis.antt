-- ===== src/Cache/Redis.antt =====
-- src/cache/store.ts, the store on Redis: entries as JSON texts, and leases. The server and its
-- client are no code of the repository: what the program asks of them is the record `Redis`. Each
-- command waits for the connection first; it can fail before it is sent, and after.
pub mod AbstractLease
pub mod Lease
pub mod Laws
pub mod Instance
use news_api.Types.Article.{Json}
use news_api.Errors.{Thrown, Result, error, cache_corruption, ok, throw, ◌>>=◌}
use news_api.Js.Text.{Text, text_is}
use news_api.Base.{ℕ, String, Bool, Option, none, some, ◌==◌, if◌then◌else◌}

-- A Redis server over states `S`; keys can expire between two commands. `set_px_nx` is
-- SET key value PX ttl NX and says whether it was done; `pexpire` says whether the key was there.
pub record Redis : Type 1 where
  pub S : Type 0
  pub get : String → S → Option Text
  pub setex : String → ℕ → Text → S → S
  pub del : String → S → S
  pub set_px_nx : String → Text → ℕ → S → S × Bool
  pub pexpire : String → ℕ → S → S × Bool

abbrev pub corruption_error : Thrown
corruption_error = error (record {
  cls = cache_corruption;
  name = "CacheCorruptionError";
  message = "invalid JSON in Redis cache entry";
  code = none;
  status_code = none;
  retry_after = none;
  body_type = none;
})

-- The JSON of the language: a text that cannot be parsed gives `none`.
pub record JsonText : Type 0 where
  pub parse : Text → Option Json
  pub stringify : Json → Text

-- `parseRedisCacheValue(raw)`.
unfoldable pub parse_redis_cache_value : JsonText → Text → Result Json
parse_redis_cache_value json raw = elim (json.parse raw) [
  | none ↦ throw corruption_error
  | some v ↦ ok v
]

-- `raw === null ? undefined : parseRedisCacheValue(raw)`.
abbrev pub parse_optional : JsonText → Option Text → Result (Option Json)
parse_optional json none = ok none
parse_optional json (some raw) = parse_redis_cache_value json raw >>= λ v. ok (some v)

-- What becomes of a command: it is answered; it is not sent, since the connection does not get ready
-- or is lost before; or it is run, and the client gives up waiting or the connection is lost before
-- the answer arrives. A command that the client sends a second time counts as two, the first of them
-- unanswered, and one that the server runs late counts where it is run.
pub data Delivery : Type 0 where
  answered : Delivery
  unsent : Thrown → Delivery
  unanswered : Thrown → Delivery

module _ (R : Redis) where
  -- RELEASE_LEASE_SCRIPT and RENEW_LEASE_SCRIPT, which the server runs as one command each.
  unfoldable pub release_lease_script : String → Text → R.S → R.S × ℕ
  release_lease_script key owner s =
      if text_is (R.get key s) owner then (R.del key s, 1) else (s, 0)

  unfoldable pub renew_lease_script : String → Text → ℕ → R.S → R.S × ℕ
  renew_lease_script key owner ttl s =
      if text_is (R.get key s) owner
      then (let (s', done) = R.pexpire key ttl s in (s', if done then 1 else 0))
      else (s, 0)

  -- `runCommand(command)`: a command that is not sent changes nothing, and one that is not answered
  -- has been run all the same.
  abbrev pub run_command : {A : Type 0} → Delivery → (R.S → R.S × Result A) → R.S → R.S × Result A
  run_command answered command s = command s
  run_command (unsent e) command s = (s, throw e)
  run_command (unanswered e) command s = ((command s).0, throw e)

  unfoldable pub redis_get : JsonText → Delivery → String → R.S → R.S × Result (Option Json)
  redis_get json delivery key = run_command delivery (λ s. (s, parse_optional json (R.get key s)))

  unfoldable pub redis_set : JsonText → Delivery → String → Json → ℕ → R.S → R.S × Result (Unit {0})
  redis_set json delivery key value ttl =
      run_command delivery (λ s. (R.setex key ttl (json.stringify value) s, ok tt))

  unfoldable pub redis_delete : Delivery → String → R.S → R.S × Result (Unit {0})
  redis_delete delivery key = run_command delivery (λ s. (R.del key s, ok tt))

  unfoldable pub try_acquire_lease : Delivery → String → Text → ℕ → R.S → R.S × Result Bool
  try_acquire_lease delivery key owner ttl =
      run_command delivery (λ s. let (s', done) = R.set_px_nx key owner ttl s in (s', ok done))

  unfoldable pub release_lease : Delivery → String → Text → R.S → R.S × Result (Unit {0})
  unfolding release_lease_script
  release_lease delivery key owner =
      run_command delivery (λ s. ((release_lease_script key owner s).0, ok tt))

  unfoldable pub renew_lease : Delivery → String → Text → ℕ → R.S → R.S × Result Bool
  unfolding renew_lease_script
  renew_lease delivery key owner ttl =
      run_command delivery
        (λ s. let (s', n) = renew_lease_script key owner ttl s in (s', ok (n == 1)))
