-- ===== src/Adapters/Mem0/Naming.antt =====
-- The user ids of src/memgw/adapters/mem0.py, which carry the tenant.
use Prim.Native.Char.{Char, code}
use text.Mathlib.TextLemmas.{nil-append, cons-append}
use Prim.Native.String.{◌++◌ as append}
use router_memory_services.Prelude.{
  ℕ, String, ◌≡◌, ◌≢◌, sym, refl, Bool, true, false, not, ◌&&◌, arith, is_blank, nat_beq, ap, ◌∙◌,
}
use router_memory_services.Types.{Scope, under}
use router_memory_services.Adapters.Mem0.Names.{tenant_sep, user_id}

-- A text without the separator.
abbrev pub is_plain : String → Bool
is_plain String.[] = true
is_plain (String.◌∷◌ c s) = not (nat_beq (code c) 58) && is_plain s

abbrev joined : String → String → String
joined t a = append t (append tenant_sep a)

joined-nil : (a : String) → joined "" a ≡ String.◌∷◌ ":" a
joined-nil a = nil-append (append ":" a) ∙ cons-append ":" "" a ∙ ap (String.◌∷◌ ":") (nil-append a)

joined-cons : (c : Char) (t a : String) → joined (String.◌∷◌ c t) a ≡ String.◌∷◌ c (joined t a)
joined-cons c t a = cons-append c t (append ":" a)

abbrev first : String → ℕ
first String.[] = 0
first (String.◌∷◌ c s) = code c

starts-other :
    (a : String) (d : Char) (u b : String)
    → is_plain (String.◌∷◌ d u) ≡ true
    → String.◌∷◌ ":" a ≢ String.◌∷◌ d (joined u b)
starts-other a d u b h e = let p : 58 ≡ code d = ap first e in absurd (ground (arith, p, h))

append-sep :
    (t u a b : String)
    → is_plain t ≡ true
    → is_plain u ≡ true
    → joined t a ≡ joined u b
    → (t ≡ u) × (a ≡ b)
append-sep String.[] String.[] a b ht hu e = ground (arith, e, joined-nil a, joined-nil b)
append-sep String.[] (String.◌∷◌ d u) a b ht hu e =
    absurd (starts-other a d u b hu (sym (joined-nil a) ∙ e ∙ joined-cons d u b))
append-sep (String.◌∷◌ c t) String.[] a b ht hu e =
    absurd (starts-other b c t a ht (sym (joined-nil b) ∙ sym e ∙ joined-cons c t a))
append-sep (String.◌∷◌ c t) (String.◌∷◌ d u) a b ht hu e =
    ground (arith, e, joined-cons c t a, joined-cons d u b, append-sep t u a b)

whole :
    (t : String) (scope : Scope)
    → is_blank t ≡ false
    → user_id (under t scope) ≡ joined t scope.subject
unfolding user_id under
whole t scope b = rw b refl

-- Two tenants without a colon in their names share no user id: a user id of a scope under such a
-- tenant is of one tenant and one subject only.
pub user_id-injective :
    (t u : String) (scope other : Scope)
    → is_blank t ≡ false
    → is_blank u ≡ false
    → is_plain t ≡ true
    → is_plain u ≡ true
    → user_id (under t scope) ≡ user_id (under u other)
    → (t ≡ u) × (scope.subject ≡ other.subject)
unfolding user_id under
user_id-injective t u scope other bt bu ht hu e =
    append-sep t u scope.subject other.subject ht hu (sym (whole t scope bt) ∙ e ∙ whole u other bu)
