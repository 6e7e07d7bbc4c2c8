-- ===== src/Service/Restored/Once.antt =====
-- Maps in which each id stands at most once (job.JobMap of job/job.go).
use minijob.Prelude.{
  ℕ, ◌≤◌, ◌≡◌, List, [], ◌∷◌, Map, keys, insert, delete, count, if◌then◌else◌, nat_eq, nat_eq_iff,
  nat_Eq, arith,
}
use minijob.Job.{Job}
use minijob.Service.State.{
  ServiceEvent, Effect, job_event, service_event, job_updated, job_deleted_all,
}
use minijob.Service.Log.{follow_event, follow, followed}

abbrev pub Once : Map ℕ Job → Type 0
Once m = (k : ℕ) → count k (keys m) ≤ 1

count-insert :
    (i k : ℕ) (j : Job) (m : Map ℕ Job)
    → count k (keys (insert i j m)) ≡ (
        if nat_eq i k
        then (if nat_eq (count k (keys m)) 0 then 1 else count k (keys m))
        else count k (keys m))
unfolding insert
count-insert i k j [] = ground (arith, nat_eq_iff i k)
count-insert i k j ((l, w) ∷ m) =
    ground (arith, nat_eq_iff i k, nat_eq_iff l i, nat_eq_iff l k, count-insert i k j m)

count-delete :
    (i k : ℕ) (m : Map ℕ Job)
    → count k (keys (delete i m)) ≡ (if nat_eq i k then 0 else count k (keys m))
unfolding delete
count-delete i k [] = ground (arith, nat_eq_iff i k)
count-delete i k ((l, w) ∷ m) =
    ground (arith, nat_eq_iff i k, nat_eq_iff l i, nat_eq_iff l k, count-delete i k m)

pub insert-Once : (i : ℕ) (j : Job) (m : Map ℕ Job) → Once m → Once (insert i j m)
insert-Once i j m h k = ground (arith, h k, count-insert i k j m)

pub delete-Once : (i : ℕ) (m : Map ℕ Job) → Once m → Once (delete i m)
delete-Once i m h k = ground (arith, h k, count-delete i k m)

pub nil-Once : Once []
nil-Once k = omega arith

follow_event-Once :
    (ev : ServiceEvent) (j : Job) (m : Map ℕ Job) → Once m → Once (follow_event ev j m)
follow_event-Once ev j m h = ground (arith, h, insert-Once j.id j m h, delete-Once j.id m h)

pub follow-Once : (e : Effect) (m : Map ℕ Job) → Once m → Once (follow e m)
follow-Once (job_event ev j) m h = follow_event-Once ev j m h
follow-Once (service_event job_deleted_all) m h = nil-Once
follow-Once (job_updated j) m h = insert-Once j.id j m h
follow-Once _ m h = h

pub followed-Once : (es : List Effect) (m : Map ℕ Job) → Once m → Once (followed m es)
followed-Once [] m h = h
followed-Once (e ∷ es) m h = follow-Once e (followed m es) (followed-Once es m h)
