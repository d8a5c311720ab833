-- ===== src/Core/Keeping.antt =====
-- Code of src/memgw/core.py after which an assertion on the catalog still holds.
use router_memory_services.Prelude.{◌≡◌, sym, subst}
use router_memory_services.Errors.{Result, ok, err}
use router_memory_services.Catalog.Store.{Catalog}
use router_memory_services.Exec.{Exec, lift, continue, ◌>>=◌}
use router_memory_services.Core.State.{World, in_catalog}

-- Code after which the assertion holds if it held before, whatever the code answers or raises.
pub record Keeps {P A : Type 0} (I : Catalog → Type 0) (m : Exec (World P) A) : Type 0 where
  pub keeps : (w : World P) → I w.catalog → I (m w).1.catalog

module _ {P A : Type 0} (I : Catalog → Type 0) where
  pub Keeps-same :
      (m : Exec (World P) A) → ((w : World P) → (m w).1.catalog ≡ w.catalog) → Keeps I m
  Keeps-same m same = record { keeps = λ w k. subst I (sym (same w)) k }

  pub Keeps-in_catalog :
      (m : Exec Catalog A) → ((c : Catalog) → I c → I (m c).1) → Keeps {P = P} I (in_catalog m)
  Keeps-in_catalog m h = record { keeps = λ w k. h w.catalog k }

  pub Keeps-lift : (r : Result A) → Keeps {P = P} I (lift r)
  Keeps-lift r = record { keeps = λ w k. k }

  pub Keeps-bind :
      {B : Type 0} (m : Exec (World P) A) (f : A → Exec (World P) B)
      → Keeps I m
      → ((a : A) → Keeps I (f a))
      → Keeps I (m >>= f)
  Keeps-bind m f first next = record { keeps = λ w k. ends (m w).0 (m w).1 (first.keeps w k) }
    where
      ends : (r : Result A) (w : World P) → I w.catalog → I (continue r f w).1.catalog
      ends (ok a) w k = (next a).keeps w k
      ends (err e) w k = k
