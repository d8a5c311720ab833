-- ===== src/Adapters/Mem0/Names.antt =====
-- The names under which src/memgw/adapters/mem0.py stores and looks for memories.
use Prim.Native.String.{◌++◌ as append}
use router_memory_services.Prelude.{String, Option, none, some, [], ◌∷◌, is_blank, if◌then◌else◌}
use router_memory_services.Dict.{Dict}
use router_memory_services.Types.{Scope}

-- `TENANT_SEP`
abbrev pub tenant_sep : String
tenant_sep = ":"

-- `ANY`
abbrev pub wildcard : String
wildcard = "*"

-- if value: … else …
abbrev pub if_set {ℓ} : {A : Type ℓ} → Option String → (String → A) → A → A
if_set none f d = d
if_set (some v) f d = if is_blank v then d else f v

unfoldable pub user_id : Scope → String
user_id scope = if_set scope.tenant (λ t. append t (append tenant_sep scope.subject)) scope.subject

-- value or ANY
abbrev pub or_any : Option String → String
or_any value = if_set value (λ v. v) wildcard

unfoldable pub build_filters : Scope → Dict String String
unfolding user_id
build_filters scope =
    ("user_id", user_id scope)
    ∷ ("agent_id", or_any scope.agent)
    ∷ ("run_id", or_any scope.session)
    ∷ []

unfoldable pub write_ids : Scope → Dict String String
unfolding user_id
write_ids scope =
    let rest = if_set scope.session (λ v. ("run_id", v) ∷ []) [] in
    ("user_id", user_id scope) ∷ if_set scope.agent (λ v. ("agent_id", v) ∷ rest) rest
