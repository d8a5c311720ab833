-- ===== src/Adapters/Mem0/Draining.antt =====
-- The loop of `delete_scope` of src/memgw/adapters/mem0.py empties the scope.
use router_memory_services.Prelude.{ℕ, ◌≡◌, List, ◌∷◌, take}
use router_memory_services.Json.{Json}
use router_memory_services.Errors.{ok}
use router_memory_services.Types.{Scope, ProviderMemory}
use router_memory_services.Adapters.Mem0.Names.{build_filters}
use router_memory_services.Adapters.Mem0.Items.{Reader, to_memories}
use router_memory_services.Adapters.Mem0.Calls.{Client}

-- A package that is consistent at once, for one scope: a listing changes nothing and gives the first so
-- many of all that the scope's filters match, every item of which has a content and is a memory; and
-- deleting the first of these memories answers, and leaves the others to the next listing. The
-- adapter's capabilities promise less, an eventual consistency.
pub record Listing {P : Type 0} (c : Client P) (r : Reader) (scope : Scope)
    (held : P → List ProviderMemory) : Type 0 where
  pub lists :
      (s : P) (n : ℕ)
      → (raw : Json) × (c.get_all (build_filters scope) n s ≡ (ok raw, s))
        × (to_memories r raw ≡ ok (take n (held s)))
  pub drops :
      (s : P) (memory : ProviderMemory) (rest : List ProviderMemory)
      → held s ≡ memory ∷ rest
      → (s' : P) × (c.delete memory.native_id s ≡ (ok tt, s')) × (held s' ≡ rest)
