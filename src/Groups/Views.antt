-- ===== src/Groups/Views.antt =====
-- What the other modules are told of groups, src/groups.rs: `grants_from`, `list`, `memberships` and
-- `names_for_bitpos`.
use microtak_server.Prelude.{
  ℕ, String, Bool, false, not, List, [], ◌∷◌, ◌++◌, Option, none, some, ◌≡◌, refl, ◌∙◌, arith, ◌==◌,
  string_eq, nat_eq, mem, if◌then◌else◌, ◌||◌, ◌&&◌,
}
use microtak_server.Prelude.Int.{ℤ}
use microtak_server.Map.{Map, get, insert}
use microtak_server.Map.Laws.{get-insert}
use microtak_server.Map.Counts.{Distinct, Distinct-insert}
use microtak_server.Groups.Grants.{has_direction, granted, includes-merge}
use microtak_server.Groups.{
  Direction, in_, out, Membership, in_only, out_only, both, includes, merge, GroupGrant,
  GroupRecord, State, effective_memberships, switched_off,
}

abbrev pub or_merge : Membership → Option Membership → Membership
or_merge m none = m
or_merge m (some old) = merge old m

-- `entry(name).and_modify(|m| *m = m.merge(membership)).or_insert(membership)`
unfoldable pub merge_name : Membership → Map String Membership → String → Map String Membership
merge_name m merged name = insert name (or_merge m (get name merged)) merged

unfoldable pub merge_names :
    Membership → Map String Membership → List String → Map String Membership
merge_names m merged [] = merged
merge_names m merged (name ∷ rest) = merge_names m (merge_name m merged name) rest

unfoldable pub to_grants : Map String Membership → List GroupGrant
to_grants [] = []
to_grants ((name, m) ∷ rest) = record { name = name; membership = m } ∷ to_grants rest

unfoldable pub merged_grants : (boths ins outs : List String) → Map String Membership
unfolding merge_names merge_name
merged_grants boths ins outs =
    merge_names out_only (merge_names in_only (merge_names both [] boths) ins) outs

pub grants_from : (boths ins outs : List String) → List GroupGrant
unfolding to_grants merged_grants
grants_from boths ins outs = to_grants (merged_grants boths ins outs)

pub record MemberGroup : Type 0 where
  pub name : String
  pub direction : Direction
  pub bitpos : ℕ
  pub created_at_unix : ℤ
  pub description : Option String
  pub active : Bool

-- One entry for a direction that the membership has, where the group has a record.
unfoldable pub member_group :
    Option (List String) → String → Membership → Direction → Option GroupRecord → List MemberGroup
member_group off name m d none = []
member_group off name m d (some r) =
    if includes m d
    then record {
      name = name;
      direction = d;
      bitpos = r.bitpos;
      created_at_unix = r.created_at_unix;
      description = r.description;
      active = not (switched_off off name);
    }
      ∷ []
    else []

unfoldable pub memberships_of :
    State → Option (List String) → List (String × Membership) → List MemberGroup
unfolding member_group
memberships_of s off [] = []
memberships_of s off ((name, m) ∷ rest) =
    member_group off name m in_ (get name s.groups)
    ++ (member_group off name m out (get name s.groups) ++ memberships_of s off rest)

unfoldable pub memberships : State → String → List MemberGroup
unfolding memberships_of
memberships s identity =
    memberships_of s (get identity s.inactive) (effective_memberships s identity)

pub record GroupInfo : Type 0 where
  pub name : String
  pub description : Option String
  pub bitpos : ℕ
  pub created_at_unix : ℤ
  pub members : Map String Membership

pub members_in : String → Map String (Map String Membership) → Map String Membership
members_in name [] = []
members_in name ((identity, groups) ∷ rest) =
    let others = members_in name rest in
    elim (get name groups) [ none ↦ others | some m ↦ (identity, m) ∷ others ]

pub list_of : Map String (Map String Membership) → Map String GroupRecord → List GroupInfo
unfolding members_in
list_of members [] = []
list_of members ((name, r) ∷ rest) =
    record {
      name = name;
      description = r.description;
      bitpos = r.bitpos;
      created_at_unix = r.created_at_unix;
      members = members_in name members;
    }
    ∷ list_of members rest

pub list : State → List GroupInfo
unfolding list_of
list s = list_of s.members s.groups

unfoldable pub names_for_bitpos : List ℕ → Map String GroupRecord → List String
names_for_bitpos bitpos [] = []
names_for_bitpos bitpos ((name, g) ∷ rest) =
    if mem g.bitpos bitpos
    then name ∷ names_for_bitpos bitpos rest
    else names_for_bitpos bitpos rest

or_merge-includes :
    (m : Membership) (o : Option Membership) (d : Direction)
    → includes (or_merge m o) d ≡ (has_direction o d || includes m d)
or_merge-includes m none d = refl
or_merge-includes m (some old) d = includes-merge old m d

get-merge_name :
    (m : Membership) (merged : Map String Membership) (x n : String) (d : Direction)
    → has_direction (get n (merge_name m merged x)) d
      ≡ (has_direction (get n merged) d || (x == n && includes m d))
unfolding merge_name
get-merge_name m merged x n d = ground (
  arith,
  get-insert x n (or_merge m (get x merged)) merged,
  or_merge-includes m (get x merged) d,
  string_eq.beq_iff x n,
)

get-merge_names :
    (m : Membership) (merged : Map String Membership) (xs : List String) (n : String)
    (d : Direction)
    → has_direction (get n (merge_names m merged xs)) d
      ≡ (has_direction (get n merged) d || (mem n xs && includes m d))
unfolding merge_names
get-merge_names m merged [] n d = ground arith
get-merge_names m merged (x ∷ xs) n d =
    ground (arith, get-merge_names m (merge_name m merged x) xs n d, get-merge_name m merged x n d)

Distinct-merge_names :
    (m : Membership) (merged : Map String Membership) (xs : List String)
    → Distinct merged
    → Distinct (merge_names m merged xs)
unfolding merge_names merge_name
Distinct-merge_names m merged [] h = h
Distinct-merge_names m merged (x ∷ xs) h =
    Distinct-merge_names m (merge_name m merged x) xs
      (Distinct-insert x (or_merge m (get x merged)) merged h)

granted-absent :
    (m : Map String Membership) (n : String) (d : Direction)
    → get n m ≡ none
    → granted (to_grants m) n d ≡ false
unfolding to_grants get
granted-absent [] n d h = refl
granted-absent ((x, k) ∷ rest) n d h = ground (arith, granted-absent rest n d)

granted-to_grants :
    (m : Map String Membership) (n : String) (d : Direction)
    → Distinct m
    → granted (to_grants m) n d ≡ has_direction (get n m) d
unfolding to_grants get
granted-to_grants [] n d h = refl
granted-to_grants ((x, k) ∷ rest) n d (fresh, distinct) =
    ground
      (arith, granted-to_grants rest n d distinct, granted-absent rest n d, string_eq.beq_iff x n)

-- A group is granted in a direction exactly where one of the lists that names it has the direction.
pub grants_from_exact :
    (boths ins outs : List String) (n : String) (d : Direction)
    → granted (grants_from boths ins outs) n d
      ≡ (mem n boths || (mem n ins && includes in_only d) || (mem n outs && includes out_only d))
unfolding grants_from get includes
grants_from_exact boths ins outs n d =
    let m = merge_names both [] boths in
    let k = merge_names in_only m ins in
    granted-to_grants (merge_names out_only k outs) n d (
      Distinct-merge_names out_only k outs
        (Distinct-merge_names in_only m ins (Distinct-merge_names both [] boths tt)))
    ∙ ground (
      arith,
      get-merge_names out_only k outs n d,
      get-merge_names in_only m ins n d,
      get-merge_names both [] boths n d,
    )
