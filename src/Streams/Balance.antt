-- ===== src/Streams/Balance.antt =====
-- internal/core/streams/streams.go: each opening of a transport, and what is left to do of its ending.
-- Whether the one that is open still has its socket is another matter: an earlier removal may take it.
use yoke.Prelude.{
  ℕ, ◌+◌, ◌≡◌, ◌≤◌, String, Option, none, some, List, [], ◌∷◌, ◌=?◌, if◌then◌else◌, keep, arith,
  refl, Option-cases, inl, inr,
}
use yoke.Streams.{
  new, asked, Service, Key, Feed, Frame, Job, Told, unlinks, publishes, drops, lets_go, delivers,
  picks, same, find, open_flow, deliver, close, discard, close_all, feed, stop_feed, pick, of_unit,
  feed_of, sort_flows, stop_jobs, release_jobs, next_subscriber, do_job, go_on, next_job, proceed,
}
use yoke.Streams.Flows.{
  Step, perform, run, opening, reading, closing, discarding, closing_all, feeding, stopping_feed,
  subscribing, proceeding, openings, removals, published, discarded, count_flows, same→≡, same_both,
  find-none, find-some, count_flows-without, count_flows-read_one, count_flows-keep,
  count_flows-sort_flows,
}
use yoke.Streams.Jobs.{
  all_jobs, of_job, jobs-append, all_jobs-next_job, is_unlink, is_publish, is_drop, jobs-stop_jobs,
  jobs-release_jobs, AllOrdered, Ordered-stop_jobs, AllOrdered-next_job, AllOrdered-le,
}

pick_counts :
    (j : Key) (x : Frame) (fds : List Feed) (log : List Told)
    → let t = pick x fds log in
      (openings j t ≡ openings j log)
      × (removals j t ≡ removals j log)
      × (published j t ≡ published j log)
      × (discarded j t ≡ discarded j log)
pick_counts j x [] log = (refl, refl, refl, refl)
pick_counts j x (fd ∷ fds) log = pick_counts j x fds (picks fd.number x ∷ log)

-- The jobs left of a stream: transports to remove, stops to publish, transports to discard.
abbrev pub unlinks_left : Service → Key → ℕ
unlinks_left s k = all_jobs (is_unlink k) s.pending

abbrev pub stops_left : Service → Key → ℕ
stops_left s k = all_jobs (is_publish k) s.pending

abbrev pub drops_left : Service → Key → ℕ
drops_left s k = all_jobs (is_drop k) s.pending

-- Each opening of a stream is removed, or discarded, or is left to be, or is the one that is open; each
-- removal has its stop, and each call has the removal first.
abbrev Settled : Service → Key → Type 0
Settled s k =
    (openings k s.told
      ≡ removals k s.told
        + (discarded k s.told + (unlinks_left s k + (drops_left s k + count_flows k s.opened))))
    × (count_flows k s.opened ≤ 1)
    × (removals k s.told + unlinks_left s k ≡ published k s.told + stops_left s k)
    × AllOrdered k s.pending

-- What a job that is done adds to what is told.
module _ (k : Key) where
  do_job-counts :
      (s : Service) (j : Job)
      → let t = do_job s j in
        (openings k t.told ≡ openings k s.told)
        × (removals k t.told ≡ is_unlink k j + removals k s.told)
        × (published k t.told ≡ is_publish k j + published k s.told)
        × (discarded k t.told ≡ is_drop k j + discarded k s.told)
        × (count_flows k t.opened ≡ count_flows k s.opened)
        × (t.pending ≡ s.pending)
  unfolding do_job
  do_job-counts s (unlinks f) = ground arith
  do_job-counts s (publishes f reason) = ground arith
  do_job-counts s (drops f) = ground arith
  do_job-counts s (lets_go n) = ground arith

  go_on-counts :
      (s : Service) (o : Option Job)
      → let t = go_on s o in
        (openings k t.told ≡ openings k s.told)
        × (removals k t.told ≡ of_job (is_unlink k) o + removals k s.told)
        × (published k t.told ≡ of_job (is_publish k) o + published k s.told)
        × (discarded k t.told ≡ of_job (is_drop k) o + discarded k s.told)
        × (count_flows k t.opened ≡ count_flows k s.opened)
        × (t.pending ≡ s.pending)
  go_on-counts s none = ground arith
  go_on-counts s (some j) = do_job-counts s j

  proceed-Settled : (s : Service) (i : ℕ) → Settled s k → Settled (proceed s i) k
  unfolding proceed
  proceed-Settled s i b =
      let n = next_job i s.pending in
      let s' = record s { pending = n.1 } in
      let c = go_on-counts s' n.0 in
      let same_jobs = c.5 in
      let u = all_jobs-next_job (is_unlink k) i s.pending in
      let p = all_jobs-next_job (is_publish k) i s.pending in
      let d = all_jobs-next_job (is_drop k) i s.pending in
      rw same_jobs (
        omega (arith, b, c, u, p, d),
        omega (arith, b, c),
        omega (arith, b, c, u, p),
        AllOrdered-next_job k i s.pending b.3,
      )

  -- The jobs of a unit that is closed.
  closing_all-Settled :
      (s : Service) (id reason : String) → Settled s k → Settled (close_all s id reason) k
  unfolding close_all
  closing_all-Settled s id reason b =
      let closing = sort_flows (keep (of_unit id) s.opened) in
      let released = (if reason =? asked then [] else keep (feed_of id) s.feeds) in
      let js = stop_jobs reason closing in
      let ks = release_jobs released in
      let u = jobs-append (is_unlink k) js ks in
      let p = jobs-append (is_publish k) js ks in
      let d = jobs-append (is_drop k) js ks in
      let c = count_flows-keep (of_unit id) k s.opened in
      let o = count_flows-sort_flows k (keep (of_unit id) s.opened) in
      let m = jobs-stop_jobs k 0 reason closing in
      let l = jobs-release_jobs k 0 released in
      (
        omega (arith, b, u, d, c, o, m, l),
        omega (arith, b, c),
        omega (arith, b, u, p, m, l),
        (Ordered-stop_jobs k reason closing released, b.3),
      )

perform-Settled : (s : Service) (st : Step) (k : Key) → Settled s k → Settled (perform s st) k
unfolding perform open_flow deliver close discard feed stop_feed next_subscriber
perform-Settled s (opening j n t sh why) k b =
    ground (arith, b, find-none j s.opened, same_both j k k, same→≡ j k)
perform-Settled s (reading j x) k b = ground (
  arith,
  b,
  count_flows-read_one j k s.opened,
  pick_counts k x (keep (λ fd. same fd.key j) s.feeds) (delivers j x ∷ s.told),
)
perform-Settled s (closing j reason) k b = elim (Option-cases (find j s.opened)) [
  | inl e ↦ ground (arith, b, e)
  | inr (f, e) ↦ ground (
    arith,
    b,
    e,
    find-some j s.opened f e,
    same_both f.key j k,
    same→≡ j k,
    count_flows-without j k s.opened,
  )
]
perform-Settled s (discarding j) k b = elim (Option-cases (find j s.opened)) [
  | inl e ↦ ground (arith, b, e)
  | inr (f, e) ↦ ground (
    arith,
    b,
    e,
    find-some j s.opened f e,
    same_both f.key j k,
    same→≡ j k,
    count_flows-without j k s.opened,
  )
]
perform-Settled s (closing_all id reason) k b = closing_all-Settled k s id reason b
perform-Settled s (feeding j) k b = b
perform-Settled s (stopping_feed n) k b = b
perform-Settled s (subscribing j) k b = b
perform-Settled s (proceeding i) k b = proceed-Settled k s i b

run-Settled : (s : Service) (sts : List Step) (k : Key) → Settled s k → Settled (run s sts) k
unfolding run
run-Settled s [] k b = b
run-Settled s (st ∷ sts) k b = run-Settled (perform s st) sts k (perform-Settled s st k b)

abbrev pub Balanced : Service → Key → Type 0
Balanced s k =
    (openings k s.told
      ≡ removals k s.told
        + (discarded k s.told + (unlinks_left s k + (drops_left s k + count_flows k s.opened))))
    × (count_flows k s.opened ≤ 1)
    × (removals k s.told + unlinks_left s k ≡ published k s.told + stops_left s k)
    × (published k s.told ≤ removals k s.told)

-- However the sections under the lock, and after them the jobs of the calls one by one, come between each
-- other: each time that a stream's transport was opened it has been removed once, or discarded once, or
-- one call has that left to do, but for the one that is open now; at most one is open; the stops published
-- and left are as many as the removals done and left; and no more stops are published than transports are
-- removed.
pub run-Balanced : (root : String) (sts : List Step) (k : Key) → Balanced (run (new root) sts) k
run-Balanced root sts k =
    let s = run (new root) sts in
    let b = run-Settled (new root) sts k (refl, omega arith, refl, tt) in
    (b.0, b.1, b.2, omega (arith, b, AllOrdered-le k s.pending b.3))
