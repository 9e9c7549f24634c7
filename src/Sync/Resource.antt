-- ===== src/Sync/Resource.antt =====
-- A Sandbox resource as the API returns it: the parts of the JSON that the sync loop reads. A key
-- that is absent is `none`. Resource names are numbers, and 0 is the empty text.
use Prim.Native.String.{String}
use Prim.Native.String.{[] as nil, ◌∷◌ as cons}
use Prim.Native.Char.{code}
use text.Mathlib.Text.{◌==◌ as str_eq}
use treadstone.Prelude.{
  ℕ, ◌+◌, ◌*◌, ◌-◌, Bool, true, false, Option, none, some, List, [], ◌∷◌, ◌&&◌, not, leb, ltb, ◌==◌,
  if◌then◌else◌,
}

pub record OwnerReference : Type 0 where
  pub kind : Option String
  pub name : Option ℕ
  pub controller : Option Bool

pub record Condition : Type 0 where
  pub type : Option String
  pub status : Option String
  pub reason : Option String
  pub message : Option String

pub record Resource : Type 0 where
  pub name : Option ℕ
  pub namespace : Option ℕ
  pub resource_version : Option String
  pub owner_references : List OwnerReference
  pub operating_mode : Option String
  pub conditions : List Condition
  pub service_fqdn : Option ℕ

-- `d.get(key, default)`
abbrev pub get_or {ℓ} : {A : Type ℓ} → Option A → A → A
get_or none d = d
get_or (some a) d = a

abbrev pub text_is : Option String → String → Bool
text_is none s = false
text_is (some t) s = str_eq t s

-- A value that is neither absent nor empty, as Python's `if k` tests it.
abbrev pub present : Option ℕ → Option ℕ
present none = none
present (some n) = if n == 0 then none else some n

abbrev pub present_text : Option String → Option String
present_text none = none
present_text (some s) = if str_eq s "" then none else some s

abbrev claim_name_of : OwnerReference → Option ℕ
claim_name_of r =
    if text_is r.kind "SandboxClaim" && get_or r.controller true then present r.name else none

-- `_sandbox_claim_owner_name`
unfoldable pub claim_owner_name : List OwnerReference → Option ℕ
claim_owner_name [] = none
claim_owner_name (r ∷ rs) =
    let rest = claim_owner_name rs in elim (claim_name_of r) [ none ↦ rest | some n ↦ some n ]

-- `isdigit`, for ASCII text
abbrev all_digits : String → Bool
all_digits nil = true
all_digits (cons c s) = leb 48 (code c) && leb (code c) 57 && all_digits s

unfoldable is_digit : String → Bool
is_digit s = not (str_eq s "") && all_digits s

abbrev digits_value : ℕ → String → ℕ
digits_value n nil = n
digits_value n (cons c s) = digits_value (n * 10 + (code c - 48)) s

-- `int`, on a text of digits
unfoldable int_of : String → ℕ
int_of s = digits_value 0 s

abbrev older : Option String → Option String → Bool
older none d = false
older (some c) none = false
older (some c) (some d) = is_digit c && is_digit d && ltb (int_of c) (int_of d)

-- `_reconcile_cr_is_stale_list_snapshot`
unfoldable pub is_stale_snapshot : Option String → Option String → Bool
unfolding is_digit int_of
is_stale_snapshot cr_rv db_rv = older (present_text cr_rv) (present_text db_rv)

-- `a != b` on resource versions
abbrev pub same_version : Option String → Option String → Bool
same_version none none = true
same_version none (some _) = false
same_version (some _) none = false
same_version (some a) (some b) = str_eq a b

abbrev pub same_name : Option ℕ → Option ℕ → Bool
same_name none none = true
same_name none (some _) = false
same_name (some _) none = false
same_name (some a) (some b) = a == b
