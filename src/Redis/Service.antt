-- ===== src/Redis/Service.antt =====
-- From the scheduler to the Redis server: service/service.go, and redisprovider.go and writer.go of
-- jobbackendprovider/redisprovider.
use minijob.Prelude.{ℕ, String, true, false, ◌≡◌, ap, ◌∙◌, sym, Option, none, [], lookup, nat_Eq}
use mathlib.Core.Path.{subst}
use minijob.Service.State.{Service, Env}
use minijob.Service.Reach.{Reach}
use minijob.Redis.Ops.{StoredValue, after}
use minijob.Redis.Client.{Client, IsRedis}
use minijob.Redis.Writer.{Writer}
use minijob.Redis.Kept.{Running}
use minijob.Redis.Delivered.{ended-after}
use minijob.Redis.Provider.{Settings, RedisProvider, job_uuid2redis_key}
use minijob.Redis.Saves.{IsSaved, Prints, observed}
use minijob.Redis.Lasting.{Lasts, AllLast, after-Lasts, observed-AllLast}
use minijob.Redis.Mirror.{reachable-IsSaved}

-- After any sequence of calls, when the writer has made the writes of the provider, whatever
-- commands failed on the way, and has ended by a stop that did not give up: if the finished jobs are kept
-- for ever (finished_job_ttl is 0), an initially empty
-- database has, under the key of each job of the scheduler, its id, state and history, and the present
-- job where it is not completed, and nothing under the key of another job; and no key has a time to live.
pub ended-IsSaved :
    {R : Type 0} (client : Client R) (read : String → R → Option StoredValue) (r : R)
    → (c : Settings) (env : Env) (p : RedisProvider) {s : Service} {w : Writer R} (id : ℕ)
    → Prints c
    → IsRedis client read (job_uuid2redis_key c id)
    → read (job_uuid2redis_key c id) r ≡ none
    → Reach env s
    → p.pushes ≡ []
    → p.restoring ≡ false
    → Running client r (observed c p s.effects).pushes w
    → w.exited ≡ true
    → w.abandon ≡ false
    → c.finished_job_ttl ≡ 0
    → IsSaved c id (lookup id s.jobs) (read (job_uuid2redis_key c id) w.server)
      × Lasts (read (job_uuid2redis_key c id) w.server)
ended-IsSaved client read r c env p {s} {w} id h redis fresh reach empty flag run gone waited keep =
    let key = job_uuid2redis_key c id in
    let ops = (observed c p s.effects).pushes in
    let pushed : AllLast ops = observed-AllLast c keep p s.effects (rw empty tt) in
    subst (λ v. IsSaved c id (lookup id s.jobs) v × Lasts v)
      (sym (ended-after client r read key redis run gone waited ∙ ap (after key ops) fresh))
      (reachable-IsSaved c h env p id reach empty flag, after-Lasts key ops none pushed tt)
