-- ===== src/Catalog/Lifecycle.antt =====
-- `init`, `upgrade` and `schema_state` of src/memgw/catalog.py. The database, with SQLAlchemy's and
-- Alembic's operations on it, is a parameter; what the code relies on is `IsAlembic`.
use router_memory_services.Prelude.{
  String, ◌≡◌, ◌⊎◌, inl, inr, Bool, true, false, not, Option, none, some, List, ◌==◌, string_eq,
  option_eq, beq_refl, select, is_empty, if◌then◌else◌, Bool-cases, Option-cases,
}

-- A kind of database: the names of its tables, the revision that Alembic has recorded in it, the
-- newest revision of the scripts, and the operations that change it.
pub record Alembic (D : Type 0) : Type 0 where
  pub table_names : D → List String
  pub revision : D → Option String
  pub head : String
  pub create_all : D → D
  pub stamp : D → D
  pub migrate : D → D

pub record SchemaState : Type 0 where
  pub current : Option String
  pub head : Option String

abbrev pub up_to_date : SchemaState → Bool
up_to_date s = s.current == s.head

module _ {D : Type 0} (a : Alembic D) where
  -- `_is_empty`
  unfoldable pub has_no_tables : D → Bool
  has_no_tables d = is_empty (select (λ n. not (n == "alembic_version")) (a.table_names d))

  abbrev pub stamp_unrevised : Option String → D → D
  stamp_unrevised none d = a.stamp d
  stamp_unrevised (some revision) d = d

  unfoldable pub init : D → D
  unfolding has_no_tables
  init d = if has_no_tables d then a.stamp (a.create_all d) else stamp_unrevised (a.revision d) d

  unfoldable pub upgrade : D → D
  upgrade d = a.migrate d

  unfoldable pub schema_state : D → SchemaState
  schema_state d = record { current = a.revision d; head = some a.head }

-- What the operations are documented to do: a stamp at the newest revision records it and drops no
-- table, the tables that are created are there, and a migration ends at the newest revision.
pub record IsAlembic {D : Type 0} (a : Alembic D) : Type 0 where
  pub stamps : (d : D) → a.revision (a.stamp d) ≡ some a.head
  pub keeps_tables : (d : D) → has_no_tables a (a.stamp d) ≡ has_no_tables a d
  pub creates : (d : D) → has_no_tables a (a.create_all d) ≡ false
  pub migrates : (d : D) → a.revision (a.migrate d) ≡ some a.head

module _ {D : Type 0} (a : Alembic D) (lawful : IsAlembic a) (d : D) where
  -- A process that starts leaves a database that has tables and a revision as it is, however old the
  -- revision; every other database it leaves with tables, at the newest revision.
  pub init-schema_state :
      ((r : String) × (has_no_tables a d ≡ false) × (a.revision d ≡ some r) × (init a d ≡ d))
      ⊎ ((has_no_tables a (init a d) ≡ false) × (up_to_date (schema_state a (init a d)) ≡ true))
  unfolding init schema_state
  init-schema_state = elim (Bool-cases (has_no_tables a d)) [
    | inl e ↦ inr (
      rw (e, lawful.keeps_tables (a.create_all d), lawful.creates d),
      rw (e, lawful.stamps (a.create_all d)) (beq_refl (some a.head)),
    )
    | inr e ↦ elim (Option-cases (a.revision d)) [
      | inl p ↦
          inr (
            rw (e, p, lawful.keeps_tables d, e),
            rw (e, p, lawful.stamps d) (beq_refl (some a.head)),
          )
      | inr (r, p) ↦ inl (r, e, p, rw (e, p))
    ]
  ]

  -- Starting again changes nothing more.
  pub init_idem : init a (init a d) ≡ init a d
  unfolding init
  init_idem = elim (Bool-cases (has_no_tables a d)) [
    | inl e ↦
        rw (
          e,
          lawful.keeps_tables (a.create_all d),
          lawful.creates d,
          lawful.stamps (a.create_all d),
        )
    | inr e ↦ elim (Option-cases (a.revision d)) [
      | inl p ↦ rw (e, p, lawful.keeps_tables d, e, lawful.stamps d)
      | inr (r, p) ↦ rw (e, p, e, p)
    ]
  ]
