-- ===== src/Notify/Tests.antt =====
-- A flush of two stores, one with priority, and a computed store.
use stroid.Base.{String, true, false, none, List, [], ◌∷◌, ◌≡◌, refl}
use stroid.Base.Names.{has}
use stroid.Notify.{NotifyState, FlushConfig, build_flush_plan}
use stroid.Base.Names.{IsDistinct}
use stroid.Notify.Plan.{plan_names, plan-IsDistinct}

abbrev computed_order : List String → List String
computed_order names = "total" ∷ []

abbrev config : FlushConfig
config = record { chunk_size = none; chunk_delay_ms = 0; priority_stores = "cart" ∷ [] }

abbrev pending : NotifyState
pending = record {
  pending_notifications = "users" ∷ "cart" ∷ [];
  pending_buffer = [];
  ordered_names = [];
  notify_scheduled = true;
  batch_depth = 0;
  flush_id = 0;
  is_flushing = false;
}

plan_names_example :
    (has "total" (build_flush_plan computed_order config pending).1.names ≡ true)
    × ((build_flush_plan computed_order config pending).0.pending_notifications ≡ [])
plan_names_example = plan_names computed_order config pending "total"

plan-IsDistinct_example : IsDistinct (build_flush_plan computed_order config pending).1.names
plan-IsDistinct_example =
    plan-IsDistinct computed_order config pending (refl, tt) (refl, (refl, tt))
