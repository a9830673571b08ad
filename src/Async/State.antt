-- ===== src/Async/State.antt =====
-- The registry of the async subsystem (src/async/registry.ts, src/async/inflight.ts). Times are
-- milliseconds, as `Date.now()` gives them. Promises, functions and objects stand for their
-- references, which the source only compares. Left out of `AsyncRegistry`: what no modelled
-- operation reads or writes (timers, cleanup functions, revalidation keys, averages).
use stroid.Base.{ℕ, String, Option, List}
use stroid.Values.{Value}
use stroid.Base.Dict.{Dict}

pub data RequestKind : Type 0 where
  url promise factory : RequestKind

pub data ResponseType : Type 0 where
  auto json text array_buffer blob form_data : ResponseType

pub data CloneResult : Type 0 where
  keep shallow deep : CloneResult

pub record InflightRequestContract : Type 0 where
  pub request_kind : RequestKind
  pub request_ref : ℕ
  pub url : Option String
  pub method : Option String
  pub headers : Value
  pub body : Value
  pub response_type : Option ResponseType
  pub state_adapter : Option ℕ

pub record InflightEntry : Type 0 where
  pub promise : ℕ
  pub transform : Option ℕ
  pub clone_result : Option CloneResult
  pub contract : Option InflightRequestContract

pub record CacheMeta : Type 0 where
  pub timestamp : ℕ
  pub expires_at : Option ℕ
  -- `data`, by reference
  pub content : ℕ

pub record AsyncRegistry : Type 0 where
  pub inflight : Dict InflightEntry
  pub request_version : Dict ℕ
  pub request_sequence : Dict ℕ
  pub cache_meta : Dict CacheMeta
  pub rate_window_start : Dict ℕ
  pub rate_count : Dict ℕ
  pub rate_prune_last_at : ℕ
  pub slot_owners : Dict String
  pub slots_by_store : Dict (List String)
  pub cache_prune_counters : Dict ℕ
  pub dedupes : ℕ
  pub store_dedupes : Dict ℕ

abbrev pub empty_registry : AsyncRegistry
empty_registry = record {
  inflight = List.[];
  request_version = List.[];
  request_sequence = List.[];
  cache_meta = List.[];
  rate_window_start = List.[];
  rate_count = List.[];
  rate_prune_last_at = 0;
  slot_owners = List.[];
  slots_by_store = List.[];
  cache_prune_counters = List.[];
  dedupes = 0;
  store_dedupes = List.[];
}
