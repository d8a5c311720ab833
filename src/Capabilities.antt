-- ===== src/Capabilities.antt =====
-- src/memgw/capabilities.py: what a configured provider can do.
use router_memory_services.Prelude.{ℕ, Bool, List}
use router_memory_services.Types.{SearchMode, Dim}

pub data MemoryModel : Type 0 where
  flat_facts temporal_graph memory_blocks documents : MemoryModel

pub data Dedup : Type 0 where
  no_dedup provider_dedup gateway_dedup : Dedup

pub data Consistency : Type 0 where
  read_after_write eventual : Consistency

pub record Capabilities : Type 0 where
  pub supports_ingest : Bool
  pub supports_upsert : Bool
  pub supports_update : Bool
  pub supports_delete : Bool
  pub supports_delete_by_scope : Bool
  pub supports_list : Bool
  pub search_modes : List SearchMode
  pub supports_score : Bool
  pub max_limit : ℕ
  pub scope_dims : List Dim
  pub supports_labels : Bool
  pub memory_model : MemoryModel
  pub dedup : Dedup
  pub supports_export : Bool
  pub supports_import : Bool
  pub consistency : Consistency
  pub experimental : Bool
  pub metered_externally : Bool
