-- ===== src/Health.antt =====
-- health.py: the check that pages only for what was failing at the check before too.
pub mod Pages
use Prim.Native.String
use rag_search_engine.Prelude.{
  ℕ, String, Bool, true, false, ◌&&◌, ◌||◌, Option, none, some, List, [], ◌∷◌, ◌++◌, map, length,
  member, filter, dedup, sort, leb, ltb, if◌then◌else◌, string_discrete,
}
use rag_search_engine.Paths.{text_le}

-- What `/healthz` answers; an absent number reads as 0, an absent list as the empty one.
pub record Body : Type 0 where
  pub watching : Bool
  pub queue_depth : ℕ
  pub failing : List String
  pub projects_failing : ℕ
  pub scheduler_errors : List String

-- The state file.
pub record History : Type 0 where
  pub failing : List String
  pub queue_depth : Option ℕ

-- `_previous`: the file, or nothing where it cannot be read
abbrev pub previous : Option History → History
previous none = record { failing = []; queue_depth = none }
previous (some h) = h

abbrev pub not_running : String
not_running = "watcher:the thread is not running"

abbrev pub not_draining : String
not_draining = "indexer:the queue is not draining"

abbrev pub no_shallower : ℕ → Option ℕ → Bool
no_shallower depth none = false
no_shallower depth (some before) = leb before depth

pub data Reply : Type 0 where
  no_answer : Reply
  pages : List String → Reply
  watches : List String → Reply
  healthy : Reply

abbrev pub reply_of : List String → List String → Reply
reply_of (i ∷ is) failing = pages (i ∷ is)
reply_of [] (i ∷ is) = watches (i ∷ is)
reply_of [] [] = healthy

-- The first component of what `check` returns.
abbrev pub is_ok : Reply → Bool
is_ok no_answer = false
is_ok (pages is) = false
is_ok (watches is) = true
is_ok healthy = true

-- `stuck` is `HEALTH_QUEUE_STUCK`, `digits` the `str` of a number.
module _ (stuck : ℕ) (digits : ℕ → String) where
  abbrev pub stalled : Body → History → Bool
  stalled body was = leb stuck body.queue_depth && no_shallower body.queue_depth was.queue_depth

  abbrev pub over_cap : ℕ → String
  over_cap listed =
      String.◌++◌ "registry:more than "
        (String.◌++◌ (digits listed) " projects failing, past the reply's cap")

  -- The failures that no row carries.
  abbrev pub silent : Body → History → List String
  silent body was =
      (if body.watching then [] else not_running ∷ [])
      ++ ((if stalled body was then not_draining ∷ [] else [])
          ++ (if ltb (length body.failing) body.projects_failing
              then over_cap (length body.failing) ∷ []
              else []))

  -- Those that hold two samples of their own.
  abbrev pub proven : Body → History → List String
  proven body was = if stalled body was then not_draining ∷ [] else []

  unfoldable pub failing_now : Body → History → List String
  failing_now body was = sort text_le (
      body.failing
      ++ (map (λ name. String.◌++◌ "scheduler:" name) body.scheduler_errors ++ silent body was))

  unfoldable pub stuck_now : Body → History → List String
  stuck_now body was = sort text_le (
      dedup
        (filter (λ i. member i was.failing || member i (proven body was)) (failing_now body was)))

  -- The reply and the state file; the file stays as it was where the daemon does not answer.
  unfoldable pub check : Option Body → Option History → Reply × Option History
  check none file = (no_answer, file)
  check (some body) file =
      let was = previous file in
      let failing = failing_now body was in
      (
        reply_of (stuck_now body was) failing,
        some (record { failing = failing; queue_depth = some body.queue_depth }),
      )
