-- ===== src/Streams/Feeds.antt =====
-- internal/core/streams/streams.go: what the consumers of streams are told.
use yoke.Prelude.{
  some, Option, Bool-cases, ℕ, ◌+◌, ◌≡◌, ◌≤◌, String, Bool, not, List, [], ◌∷◌, ◌=?◌, ◌==◌,
  if◌then◌else◌, keep, arith, refl, inl, inr, All, none,
}
use yoke.Streams.{
  Service, Feed, Frame, Told, delivers, picks, releases, new, same, open_flow, deliver, close,
  discard, close_all, feed, stop_feed, pick, of_unit, feed_of, sort_flows, next_subscriber, asked,
  unlinks, publishes, drops, lets_go, go_on, do_job, next_job, proceed, stop_jobs, release_jobs,
  Job, Key,
}
use yoke.Streams.Jobs.{
  count_feeds, all_jobs, of_job, is_release, jobs-append, all_jobs-next_job, jobs-stop_jobs,
  jobs-release_jobs,
}
use yoke.Streams.Flows.{
  proceeding, Step, perform, run, opening, reading, closing, discarding, closing_all, feeding,
  stopping_feed, subscribing,
}

-- How often a feed was released, and how often it stands among some.
abbrev pub released_of : ℕ → List Told → ℕ
released_of n [] = 0
released_of n (releases m ∷ log) = (if m == n then 1 else 0) + released_of n log
released_of n (t ∷ log) = released_of n log

-- No frame is picked for a feed once it was released.
abbrev pub Silent : List Told → Type 0
Silent [] = Unit
Silent (picks n x ∷ log) = (released_of n log ≡ 0) × Silent log
Silent (t ∷ log) = Silent log

-- How many of the jobs that are left release a feed.
abbrev releases_left : ℕ → Service → ℕ
releases_left n s = all_jobs (is_release n) s.pending

-- A feed that stands is not released, nor to be, one that is has gone, and none is numbered ahead.
abbrev pub Fed : Service → ℕ → Type 0
Fed s n =
    (released_of n s.told + (releases_left n s + count_feeds n s.feeds) ≤ 1)
    × (s.made ≤ n → released_of n s.told + (releases_left n s + count_feeds n s.feeds) ≡ 0)

released-pick :
    (n : ℕ) (x : Frame) (fds : List Feed) (log : List Told)
    → released_of n (pick x fds log) ≡ released_of n log
released-pick n x [] log = refl
released-pick n x (fd ∷ fds) log = released-pick n x fds (picks fd.number x ∷ log)

count_feeds-keep :
    (p : Feed → Bool) (n : ℕ) (fds : List Feed)
    → count_feeds n (keep p fds) + count_feeds n (keep (λ fd. not (p fd)) fds) ≡ count_feeds n fds
count_feeds-keep p n [] = refl
count_feeds-keep p n (fd ∷ fds) = ground (arith, count_feeds-keep p n fds)

go_on-released :
    (n : ℕ) (s : Service) (o : Option Job)
    → let t = go_on s o in
      (released_of n t.told ≡ of_job (is_release n) o + released_of n s.told)
      × (t.pending ≡ s.pending)
      × (t.feeds ≡ s.feeds)
      × (t.made ≡ s.made)
unfolding do_job
go_on-released n s none = ground arith
go_on-released n s (some (unlinks f)) = ground arith
go_on-released n s (some (publishes f reason)) = ground arith
go_on-released n s (some (drops f)) = ground arith
go_on-released n s (some (lets_go m)) = ground arith

proceed-Fed : (s : Service) (i n : ℕ) → Fed s n → Fed (proceed s i) n
unfolding proceed
proceed-Fed s i n h =
    let o = next_job i s.pending in
    let c = go_on-released n (record s { pending = o.1 }) o.0 in
    let r = all_jobs-next_job (is_release n) i s.pending in
    rw (c.1, c.2, c.3) (omega (arith, h, c, r), λ m. omega (arith, h.1 m, c, r))

perform-Fed : (s : Service) (st : Step) (n : ℕ) → Fed s n → Fed (perform s st) n
unfolding perform open_flow deliver close discard close_all feed stop_feed next_subscriber
perform-Fed s (opening j i t sh why) n h = ground (arith, h)
perform-Fed s (reading j x) n h =
    ground
      (arith, h, released-pick n x (keep (λ fd. same fd.key j) s.feeds) (delivers j x ∷ s.told))
perform-Fed s (closing j reason) n h = ground (arith, h)
perform-Fed s (discarding j) n h = ground (arith, h)
perform-Fed s (closing_all id reason) n h =
    let closing = sort_flows (keep (of_unit id) s.opened) in
    let released = (if reason =? asked then [] else keep (feed_of id) s.feeds) in
    let k : Key = record { unit = id; stream = "" } in
    ground (
      arith,
      h,
      count_feeds-keep (feed_of id) n s.feeds,
      jobs-append (is_release n) (stop_jobs reason closing) (release_jobs released),
      jobs-stop_jobs k n reason closing,
      jobs-release_jobs k n released,
    )
perform-Fed s (feeding j) n h = ground (arith, h)
perform-Fed s (stopping_feed m) n h =
    ground (arith, h, count_feeds-keep (λ fd. not (fd.number == m)) n s.feeds)
perform-Fed s (subscribing j) n h = h
perform-Fed s (proceeding i) n h = proceed-Fed s i n h

Silent-pick :
    (x : Frame) (fds : List Feed) (log : List Told)
    → All (λ fd. released_of fd.number log ≡ 0) fds
    → Silent log
    → Silent (pick x fds log)
Silent-pick x [] log a h = h
Silent-pick x (fd ∷ fds) log a h = Silent-pick x fds (picks fd.number x ∷ log) a.1 (a.0, h)

Silent-go_on : (s : Service) (o : Option Job) → Silent s.told → Silent (go_on s o).told
unfolding do_job
Silent-go_on s none h = h
Silent-go_on s (some (unlinks f)) h = h
Silent-go_on s (some (publishes f reason)) h = h
Silent-go_on s (some (drops f)) h = h
Silent-go_on s (some (lets_go m)) h = h

-- The feeds that stand have not been released, nor have those of them that are of one stream.
standing :
    (p : Feed → Bool) (s : Service) (fds : List Feed)
    → ((n : ℕ) → released_of n s.told + count_feeds n fds ≤ 1)
    → All (λ fd. released_of fd.number s.told ≡ 0) (keep p fds)
standing p s [] h = tt
standing p s (fd ∷ fds) h =
    let rest = standing p s fds (λ n. ground (arith, h n)) in
    let this : released_of fd.number s.told ≡ 0 = ground (arith, h fd.number) in
    elim (Bool-cases (p fd)) [ inl e ↦ rw e (this, rest) | inr e ↦ rw e rest ]

perform-Silent :
    (s : Service) (st : Step) → ((n : ℕ) → Fed s n) → Silent s.told → Silent (perform s st).told
unfolding perform open_flow deliver close discard close_all feed stop_feed next_subscriber proceed
perform-Silent s (opening j i t sh why) f h = ground (arith, h)
perform-Silent s (reading j x) f h =
    Silent-pick x (keep (λ fd. same fd.key j) s.feeds) (delivers j x ∷ s.told)
      (standing (λ fd. same fd.key j) s s.feeds (λ n. omega (arith, f n))) h
perform-Silent s (closing j reason) f h = ground (arith, h)
perform-Silent s (discarding j) f h = ground (arith, h)
perform-Silent s (closing_all id reason) f h = h
perform-Silent s (feeding j) f h = h
perform-Silent s (stopping_feed m) f h = h
perform-Silent s (subscribing j) f h = h
perform-Silent s (proceeding i) f h =
    let o = next_job i s.pending in Silent-go_on (record s { pending = o.1 }) o.0 h

run_from :
    (s : Service) (sts : List Step)
    → ((n : ℕ) → Fed s n)
    → Silent s.told
    → ((n : ℕ) → Fed (run s sts) n) × Silent (run s sts).told
unfolding run
run_from s [] f h = (f, h)
run_from s (st ∷ sts) f h =
    run_from (perform s st) sts (λ n. perform-Fed s st n (f n)) (perform-Silent s st f h)

-- Whatever happens to the streams of an instance, a consumer's feed is released once at most, it does
-- not stand any more once it was, and no frame that is read after that is for it.
pub run-Silent :
    (root : String) (sts : List Step) (n : ℕ)
    → let s = run (new root) sts in
      (released_of n s.told + count_feeds n s.feeds ≤ 1) × Silent s.told
run-Silent root sts n =
    let all = run_from (new root) sts (λ m. (omega arith, λ h. refl)) tt in
    (omega (arith, all.0 n), all.1)
