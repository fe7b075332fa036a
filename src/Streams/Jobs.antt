-- ===== src/Streams/Jobs.antt =====
-- internal/core/streams/streams.go: what is still to be done by the calls that let the lock go.
use yoke.Prelude.{
  ℕ, zero, suc, ◌+◌, ◌≡◌, ◌≤◌, String, Option, none, some, List, [], ◌∷◌, ◌++◌, if◌then◌else◌, ◌==◌,
  arith, refl,
}
use yoke.Streams.{
  Key, Flow, Feed, Job, unlinks, publishes, drops, lets_go, same, stop_jobs, release_jobs, next_job,
}
use yoke.Streams.Flows.{count_flows}

-- The jobs of a kind, of a call and of all.
module _ (w : Job → ℕ) where
  abbrev pub jobs : List Job → ℕ
  jobs [] = 0
  jobs (j ∷ js) = w j + jobs js

  abbrev pub all_jobs : List (List Job) → ℕ
  all_jobs [] = 0
  all_jobs (js ∷ calls) = jobs js + all_jobs calls

  abbrev pub of_job : Option Job → ℕ
  of_job none = 0
  of_job (some j) = w j

  pub jobs-append : (js ks : List Job) → jobs (js ++ ks) ≡ jobs js + jobs ks
  jobs-append [] ks = omega arith
  jobs-append (j ∷ js) ks = omega (arith, jobs-append js ks)

  pub all_jobs-next_job :
      (i : ℕ) (calls : List (List Job))
      → all_jobs calls ≡ of_job (next_job i calls).0 + all_jobs (next_job i calls).1
  all_jobs-next_job zero [] = refl
  all_jobs-next_job (suc i) [] = refl
  all_jobs-next_job zero ([] ∷ calls) = omega arith
  all_jobs-next_job zero ((j ∷ js) ∷ calls) = omega arith
  all_jobs-next_job (suc i) (js ∷ calls) = omega (arith, all_jobs-next_job i calls)

abbrev pub is_unlink : Key → Job → ℕ
is_unlink k (unlinks f) = if same f.key k then 1 else 0
is_unlink k j = 0

abbrev pub is_publish : Key → Job → ℕ
is_publish k (publishes f reason) = if same f.key k then 1 else 0
is_publish k j = 0

abbrev pub is_drop : Key → Job → ℕ
is_drop k (drops f) = if same f.key k then 1 else 0
is_drop k j = 0

abbrev pub is_release : ℕ → Job → ℕ
is_release n (lets_go m) = if m == n then 1 else 0
is_release n j = 0

abbrev pub count_feeds : ℕ → List Feed → ℕ
count_feeds n [] = 0
count_feeds n (fd ∷ fds) = (if fd.number == n then 1 else 0) + count_feeds n fds

pub jobs-stop_jobs :
    (k : Key) (n : ℕ) (reason : String) (fs : List Flow)
    → let js = stop_jobs reason fs in
      (jobs (is_unlink k) js ≡ count_flows k fs)
      × (jobs (is_publish k) js ≡ count_flows k fs)
      × (jobs (is_drop k) js ≡ 0)
      × (jobs (is_release n) js ≡ 0)
jobs-stop_jobs k n reason [] = (refl, refl, refl, refl)
jobs-stop_jobs k n reason (f ∷ fs) = ground (arith, jobs-stop_jobs k n reason fs)

pub jobs-release_jobs :
    (k : Key) (n : ℕ) (fds : List Feed)
    → let js = release_jobs fds in
      (jobs (is_unlink k) js ≡ 0)
      × (jobs (is_publish k) js ≡ 0)
      × (jobs (is_drop k) js ≡ 0)
      × (jobs (is_release n) js ≡ count_feeds n fds)
jobs-release_jobs k n [] = (refl, refl, refl, refl)
jobs-release_jobs k n (fd ∷ fds) = ground (arith, jobs-release_jobs k n fds)

-- Wherever a call is, no more transports of a stream are left to remove than stops to publish.
abbrev pub Ordered : Key → List Job → Type 0
Ordered k [] = Unit
Ordered k (j ∷ js) = (jobs (is_unlink k) (j ∷ js) ≤ jobs (is_publish k) (j ∷ js)) × Ordered k js

abbrev pub AllOrdered : Key → List (List Job) → Type 0
AllOrdered k [] = Unit
AllOrdered k (js ∷ calls) = Ordered k js × AllOrdered k calls

pub Ordered-release_jobs : (k : Key) (fds : List Feed) → Ordered k (release_jobs fds)
Ordered-release_jobs k [] = tt
Ordered-release_jobs k (fd ∷ fds) =
    (ground (arith, jobs-release_jobs k 0 fds), Ordered-release_jobs k fds)

pub Ordered-stop_jobs :
    (k : Key) (reason : String) (fs : List Flow) (fds : List Feed)
    → Ordered k (stop_jobs reason fs ++ release_jobs fds)
Ordered-stop_jobs k reason [] fds = Ordered-release_jobs k fds
Ordered-stop_jobs k reason (f ∷ fs) fds =
    let a = jobs-stop_jobs k 0 reason fs in
    let b = jobs-release_jobs k 0 fds in
    let js = stop_jobs reason fs in
    let c = jobs-append (is_unlink k) js (release_jobs fds) in
    let d = jobs-append (is_publish k) js (release_jobs fds) in
    (omega (arith, a, b, c, d), (omega (arith, a, b, c, d), Ordered-stop_jobs k reason fs fds))

pub AllOrdered-next_job :
    (k : Key) (i : ℕ) (calls : List (List Job))
    → AllOrdered k calls
    → AllOrdered k (next_job i calls).1
AllOrdered-next_job k zero [] h = tt
AllOrdered-next_job k (suc i) [] h = tt
AllOrdered-next_job k zero ([] ∷ calls) h = h
AllOrdered-next_job k zero ((j ∷ js) ∷ calls) h = (h.0.1, h.1)
AllOrdered-next_job k (suc i) (js ∷ calls) h = (h.0, AllOrdered-next_job k i calls h.1)

Ordered-le :
    (k : Key) (js : List Job) → Ordered k js → jobs (is_unlink k) js ≤ jobs (is_publish k) js
Ordered-le k [] h = omega arith
Ordered-le k (j ∷ js) h = h.0

pub AllOrdered-le :
    (k : Key) (calls : List (List Job))
    → AllOrdered k calls
    → all_jobs (is_unlink k) calls ≤ all_jobs (is_publish k) calls
AllOrdered-le k [] h = omega arith
AllOrdered-le k (js ∷ calls) h = omega (arith, Ordered-le k js h.0, AllOrdered-le k calls h.1)
