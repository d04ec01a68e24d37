-- ===== src/Room/TaskQueue/Serial.antt =====
-- The threads that post to a queue and drain it, in any order of their steps.
use mathlib.Core.List.{append_assoc, append-nil}
use gd_server.Base.{
  Bool, List, Option, [], ap, arith, false, if◌then◌else◌, length, length-append, none, refl, some,
  suc, sym, true, ℕ, ◌++◌, ◌+◌, ◌∙◌, ◌∷◌, ◌≡◌, ◌≢◌, ◌≤◌,
}
use gd_server.Room.TaskQueue.{TaskQueue, drain_round, no_tasks, post}

-- A thread that drains the queue has a task in hand, or is between two rounds. `posted` and
-- `finished` list the tasks in the order in which they were posted and finished.
pub record Threads {ℓ} (A : Type ℓ) : Type ℓ where
  pub queue : TaskQueue A
  pub drains : ℕ
  pub workers : List (Option A)
  pub posted : List A
  pub finished : List A

module _ {ℓ} (A : Type ℓ) where
  abbrev pub idle_threads : Threads A
  idle_threads = record { queue = no_tasks; drains = 0; workers = []; posted = []; finished = [] }

-- A task is posted; a thread of the executor takes up a drain; one that drains takes a task, ends
-- the loop, or is done with its task.
pub data Turn {ℓ} {A : Type ℓ} (w : Threads A) : Threads A → Type ℓ where
  posts_one :
      (task : A)
      → Turn w (record w {
        queue = (post w.queue task).0;
        drains = w.drains + (if (post w.queue task).1 then 1 else 0);
        posted = w.posted ++ task ∷ [];
      })
  picks_up :
      (k : ℕ) → w.drains ≡ suc k → Turn w (record w { drains = k; workers = none ∷ w.workers })
  takes_one :
      (before behind : List (Option A)) (task : A)
      → w.workers ≡ before ++ none ∷ behind
      → (drain_round w.queue).1 ≡ some task
      → Turn w
          (record w { queue = (drain_round w.queue).0; workers = before ++ some task ∷ behind })
  lets_off :
      (before behind : List (Option A))
      → w.workers ≡ before ++ none ∷ behind
      → (drain_round w.queue).1 ≡ none
      → Turn w (record w { queue = (drain_round w.queue).0; workers = before ++ behind })
  has_done :
      (before behind : List (Option A)) (task : A)
      → w.workers ≡ before ++ some task ∷ behind
      → Turn w (record w { workers = before ++ none ∷ behind; finished = w.finished ++ task ∷ [] })

pub data Turns {ℓ} {A : Type ℓ} : Threads A → Type ℓ where
  no_turn : Turns (idle_threads A)
  turned : {w v : Threads A} → Turns w → Turn w v → Turns v

module _ {ℓ} {A : Type ℓ} where
  -- The tasks that the threads have in hand.
  abbrev pub in_hand : List (Option A) → List A
  in_hand [] = []
  in_hand (none ∷ ws) = in_hand ws
  in_hand (some a ∷ ws) = a ∷ in_hand ws

  pub record IsSerial (w : Threads A) : Type ℓ where
    pub one : w.drains + length w.workers ≡ (if w.queue.drain_scheduled then 1 else 0)
    pub order : w.posted ≡ w.finished ++ in_hand w.workers ++ w.queue.tasks
    pub none_left : w.queue.drain_scheduled ≡ false → w.queue.tasks ≡ []

  -- With at most one thread, it stands alone.
  alone :
      (before behind : List (Option A)) (x : Option A)
      → length (before ++ x ∷ behind) ≤ 1
      → (before ≡ []) × (behind ≡ [])
  alone [] [] x h = (refl, refl)
  alone [] (y ∷ behind) x h = absurd (omega (arith, h))
  alone (y ∷ before) behind x h = absurd (omega (arith, h, length-append before (x ∷ behind)))

  few : (w : Threads A) → IsSerial w → length w.workers ≤ 1
  few w s = ground (arith, s.one)

  -- A round takes the oldest task, or finds none and lets go of the queue.
  drain_round-some :
      (q : TaskQueue A) (task : A)
      → (drain_round q).1 ≡ some task
      → (q.tasks ≡ task ∷ (drain_round q).0.tasks)
        × ((drain_round q).0.drain_scheduled ≡ q.drain_scheduled)
  unfolding drain_round
  drain_round-some q task h = ground arith

  drain_round-none :
      (q : TaskQueue A)
      → (drain_round q).1 ≡ none
      → (q.tasks ≡ []) × ((drain_round q).0 ≡ record q { drain_scheduled = false })
  unfolding drain_round
  drain_round-none q h = ground arith

  takes-IsSerial :
      (w : Threads A) (task : A)
      → w.workers ≡ none ∷ []
      → (drain_round w.queue).1 ≡ some task
      → IsSerial w
      → IsSerial (record w { queue = (drain_round w.queue).0; workers = some task ∷ [] })
  unfolding drain_round
  takes-IsSerial w task e round s =
      let (front, same) = drain_round-some w.queue task round in
      record {
        one = rw same (ground (arith, s.one, e));
        order = s.order ∙ rw (e, front) (simp (append-nil, append_assoc));
        none_left = λ h. absurd (cc (front, s.none_left (sym same ∙ h)));
      }

  lets_off-IsSerial :
      (w : Threads A)
      → w.workers ≡ none ∷ []
      → (drain_round w.queue).1 ≡ none
      → IsSerial w
      → IsSerial (record w { queue = (drain_round w.queue).0; workers = [] })
  lets_off-IsSerial w e round s =
      let (empty, q) = drain_round-none w.queue round in
      rw q record {
        one = ground (arith, s.one, e);
        order = s.order ∙ rw (e, empty) refl;
        none_left = λ h. empty;
      }

  has_done-IsSerial :
      (w : Threads A) (task : A)
      → w.workers ≡ some task ∷ []
      → IsSerial w
      → IsSerial (record w { workers = none ∷ []; finished = w.finished ++ task ∷ [] })
  has_done-IsSerial w task e s = record {
    one = ground (arith, s.one, e);
    order = s.order ∙ rw e (simp (append-nil, append_assoc));
    none_left = s.none_left;
  }

  Turn-IsSerial : {w v : Threads A} → Turn w v → IsSerial w → IsSerial v
  unfolding post
  Turn-IsSerial {w = w} (posts_one task) s = record {
    one = ground (arith, s.one);
    order =
        ap (λ (l : List A). l ++ task ∷ []) s.order
        ∙ append_assoc (w.finished ++ in_hand w.workers) w.queue.tasks (task ∷ []);
    none_left = λ h. absurd (cc h);
  }
  Turn-IsSerial {w = w} (picks_up k e) s = record {
    one = omega (arith, s.one, e);
    order = s.order;
    none_left = s.none_left;
  }
  Turn-IsSerial {w = w} (takes_one before behind task e round) s =
      let (nb, nh) = alone before behind none (rw e at (few w s)) in
      rw (nb, nh) (takes-IsSerial w task (e ∙ rw (nb, nh) refl) round s)
  Turn-IsSerial {w = w} (lets_off before behind e round) s =
      let (nb, nh) = alone before behind none (rw e at (few w s)) in
      rw (nb, nh) (lets_off-IsSerial w (e ∙ rw (nb, nh) refl) round s)
  Turn-IsSerial {w = w} (has_done before behind task e) s =
      let (nb, nh) = alone before behind (some task) (rw e at (few w s)) in
      rw (nb, nh) (has_done-IsSerial w task (e ∙ rw (nb, nh) refl) s)

  Turns-IsSerial : {w : Threads A} → Turns w → IsSerial w
  Turns-IsSerial no_turn = record { one = refl; order = refl; none_left = λ h. refl }
  Turns-IsSerial (turned before turn) = Turn-IsSerial turn (Turns-IsSerial before)

  -- However the threads take turns, at most one of them has a task of the room in hand; the tasks
  -- are finished in the order in which they were posted, and none is lost or done twice; and while
  -- tasks wait, a thread drains the queue or the executor has a drain for it.
  pub tasks_one_by_one :
      (w : Threads A)
      → Turns w
      → (length (in_hand w.workers) ≤ 1)
        × (w.posted ≡ w.finished ++ in_hand w.workers ++ w.queue.tasks)
        × (w.queue.tasks ≢ [] → w.drains + length w.workers ≡ 1)
  tasks_one_by_one w turns =
      let s = Turns-IsSerial turns in
      (
        omega (arith, few w s, in_hand-le w.workers),
        s.order,
        λ waiting. busy w.queue.drain_scheduled s.one (λ h. waiting (s.none_left h)),
      )
    where
      in_hand-le : (ws : List (Option A)) → length (in_hand ws) ≤ length ws
      in_hand-le [] = omega arith
      in_hand-le (none ∷ ws) = omega (arith, in_hand-le ws)
      in_hand-le (some a ∷ ws) = omega (arith, in_hand-le ws)

      busy :
          (b : Bool)
          → w.drains + length w.workers ≡ (if b then 1 else 0)
          → b ≢ false
          → w.drains + length w.workers ≡ 1
      busy true h nb = h
      busy false h nb = absurd (nb refl)
