-- ===== src/Json.antt =====
-- JSON values, which the wire types of src/memgw/types.py carry as `dict[str, Any]`. A `float` is the
-- number of its 64 bits.
use router_memory_services.Prelude.{ℕ, String, Bool}

pub record Float : Type 0 where
  pub bits : ℕ

mutual
  pub data Json : Type 0 where
    null : Json
    flag : Bool → Json
    num : Float → Json
    text : String → Json
    arr : Items → Json
    obj : Fields → Json

  pub data Items : Type 0 where
    nil : Items
    cons : Json → Items → Items

  pub data Fields : Type 0 where
    end : Fields
    field : String → Json → Fields → Fields
