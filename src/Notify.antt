-- ===== src/Notify.antt =====
-- Notification: the pending stores and the plan of a flush (src/notification/priority.ts,
-- src/notification/scheduler.ts, `notify` of src/core/store-notify.ts). The resolver that
-- src/internals/computed-order.ts is given is the parameter `get_computed_order`. The task that a
-- scheduled flush is put into is left to its caller; an infinite slice size is none.
pub mod Plan
mod Tests
use stroid.Base.{
  ℕ, ◌==◌, ◌+◌, String, Bool, true, false, not, ◌&&◌, ◌||◌, Option, none, some, List, [], ◌∷◌, ◌++◌,
  if◌then◌else◌, is_some, is_nil,
}
use stroid.Base.Names.{has, add}

-- The buffer of subscribers, which only a delivery uses, is left out.
pub record NotifyState : Type 0 where
  pub pending_notifications : List String
  pub pending_buffer : List String
  pub ordered_names : List String
  pub notify_scheduled : Bool
  pub batch_depth : ℕ
  pub flush_id : ℕ
  pub is_flushing : Bool

pub record FlushConfig : Type 0 where
  pub chunk_size : Option ℕ
  pub chunk_delay_ms : ℕ
  pub priority_stores : List String

pub record FlushPlan : Type 0 where
  pub names : List String
  pub slice_size : Option ℕ
  pub chunk_delay_ms : ℕ
  pub run_inline : Bool
  pub priority_set : Option (List String)

-- `for (const p of priority) if (pendingSet.has(p)) orderedNames.push(p)`
pub pending_first : List String → List String → List String
pending_first [] pending = []
pending_first (p ∷ priority) pending =
    let rest = pending_first priority pending in if has p pending then p ∷ rest else rest

-- `for (const name of pendingBuffer) if (!prioritySet.has(name)) orderedNames.push(name)`
pub pending_others : List String → List String → List String
pending_others priority [] = []
pending_others priority (name ∷ pending) =
    let rest = pending_others priority pending in if has name priority then rest else name ∷ rest

-- `if (!orderedSet.has(computedName)) { orderedNames.push(computedName); … }` over `computedOrder`
pub push_missing : List String → List String → List String
push_missing names [] = names
push_missing names (c ∷ computed) =
    push_missing (if has c names then names else names ++ c ∷ []) computed

abbrev pub order_pending : List String → List String → List String
order_pending priority pending =
    if is_nil priority
    then pending
    else pending_first priority pending ++ pending_others priority pending

-- `Number.isFinite(cfg.chunkSize) && cfg.chunkSize > 0 ? cfg.chunkSize : Infinity`
abbrev slice_size_of : Option ℕ → Option ℕ
slice_size_of none = none
slice_size_of (some n) = if n == 0 then none else some n

module _ (get_computed_order : List String → List String) where
  pub build_flush_plan : FlushConfig → NotifyState → NotifyState × FlushPlan
  build_flush_plan cfg state =
      let ordered = order_pending cfg.priority_stores state.pending_notifications in
      let names = push_missing ordered (get_computed_order ordered) in
      let slice_size = slice_size_of cfg.chunk_size in
      (
        record state {
          pending_notifications = [];
          pending_buffer = state.pending_notifications;
          ordered_names = names;
        },
        record {
          names = names;
          slice_size = slice_size;
          chunk_delay_ms = cfg.chunk_delay_ms;
          run_inline = not (is_some slice_size) && cfg.chunk_delay_ms == 0;
          priority_set = if is_nil cfg.priority_stores then none else some cfg.priority_stores;
        },
      )

-- `scheduleFlush`, with whether a task is queued.
pub schedule_flush : NotifyState → NotifyState × Bool
schedule_flush state =
    if state.notify_scheduled
    then (state, false)
    else (record state { notify_scheduled = true }, true)

-- `notify`, with whether a task is queued.
pub notify : String → NotifyState → NotifyState × Bool
notify name state =
    let state' = record state { pending_notifications = add name state.pending_notifications } in
    if state'.batch_depth == 0 then schedule_flush state' else (state', false)
