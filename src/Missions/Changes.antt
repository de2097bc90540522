-- ===== src/Missions/Changes.antt =====
-- The change log of a mission, `changes` of src/missions.rs: all of it, or squashed to the latest
-- change of each item by each creator.
use Prim.Native.Nat.{max}
use microtak_server.Prelude.{
  ◌-◌, ◌^◌, String, Bool, true, false, not, ◌&&◌, ◌||◌, List, [], ◌∷◌, ◌++◌, Option, none, some,
  Result, ok, ◌>>=◌, ◌≡◌, ◌↔◌, arith, Eq, ◌==◌, string_eq, option_eq, if◌then◌else◌, filter, leb,
  is_some, option_eqb_iff,
}
use microtak_server.Prelude.Int.{ltb_ℤ, leb_ℤ, int_eq, ℤ, negsuc}
use microtak_server.Prelude.Sort.{sort_by, insert_by}
use microtak_server.Map.{Map, get, insert, values}
use microtak_server.Missions.{
  permission_eq, role_eq, content_eq, has, change_type_eq, MissionError, Content, MissionRecord,
  ChangeType, create_mission, delete_mission, add_content, create_data_feed, delete_data_feed,
  ExternalDataChange, ChangeRecord,
}
use microtak_server.Missions.Records.{Window, window_contains}
use microtak_server.Missions.Events.{State}
use microtak_server.Missions.Store.{existing}

abbrev pub external_eqb : ExternalDataChange → ExternalDataChange → Bool
external_eqb a b =
    a.uid == b.uid
    && (a.name == b.name && (a.tool == b.tool && (a.token == b.token && a.notes == b.notes)))

pub external_eqb_iff : (a b : ExternalDataChange) → (external_eqb a b ≡ true) ↔ (a ≡ b)
external_eqb_iff a b = ground (
  arith,
  string_eq.beq_iff a.uid b.uid,
  string_eq.beq_iff a.name b.name,
  string_eq.beq_iff a.tool b.tool,
  option_eqb_iff a.token b.token,
  option_eqb_iff a.notes b.notes,
)

instance abbrev pub external_eq : Eq ExternalDataChange
external_eq = record { beq = external_eqb; beq_iff = external_eqb_iff }

-- The key of a group: whether it adds, what it is about, and who made it.
pub record Key (A : Type 0) : Type 0 where
  pub is_add : Bool
  pub about : A
  pub creator : String

abbrev pub bool_eqb : Bool → Bool → Bool
bool_eqb true b = b
bool_eqb false b = not b

module _ {A : Type 0} ⦃e : Eq A⦄ where
  abbrev pub key_eqb : Key A → Key A → Bool
  key_eqb a b = bool_eqb a.is_add b.is_add && (a.about == b.about && a.creator == b.creator)

  pub key_eqb_iff : (a b : Key A) → (key_eqb a b ≡ true) ↔ (a ≡ b)
  key_eqb_iff a b = ground (arith, e.beq_iff a.about b.about, string_eq.beq_iff a.creator b.creator)

  instance abbrev pub key_eq : Eq (Key A)
  key_eq = record { beq = key_eqb; beq_iff = key_eqb_iff }

abbrev pub max_ℤ : ℤ → ℤ → ℤ
max_ℤ a b = if leb_ℤ a b then b else a

-- The greatest id and instants of a group, in the entry of its first change.
abbrev pub merged_change : ChangeRecord → Option ChangeRecord → ChangeRecord
merged_change c none = c
merged_change c (some entry) = record entry {
  id = max entry.id c.id;
  timestamp_ms = max_ℤ entry.timestamp_ms c.timestamp_ms;
  server_time_ms = max_ℤ entry.server_time_ms c.server_time_ms;
}

-- `entry(key).or_insert_with(|| change.clone())`, and the three maxima.
unfoldable pub merge_into :
    {A : Type 0} ⦃e : Eq A⦄
    → Key A
    → ChangeRecord
    → Map (Key A) ChangeRecord
    → Map (Key A) ChangeRecord
merge_into key c m = insert key (merged_change c (get key m)) m

-- What the loop over the changes collects.
pub record Squashed : Type 0 where
  pub lifecycle : List ChangeRecord
  pub contents : Map (Key Content) ChangeRecord
  pub external : Map (Key ExternalDataChange) ChangeRecord

-- How the `match` of the loop reads a change.
pub data Kind : Type 0 where
  of_mission of_row ignored : Kind
  of_external : ExternalDataChange → Kind
  of_content : Content → Kind

abbrev pub is_lifecycle : ChangeType → Bool
is_lifecycle create_mission = true
is_lifecycle delete_mission = true
is_lifecycle kind = false

abbrev pub is_feed_change : ChangeType → Bool
is_feed_change create_data_feed = true
is_feed_change delete_data_feed = true
is_feed_change kind = false

abbrev pub external_kind : Option ExternalDataChange → Kind
external_kind none = ignored
external_kind (some change) = of_external change

abbrev pub other_kind : Option Content → ChangeRecord → Kind
other_kind (some content) c = of_content content
other_kind none c =
    if is_some c.map_layer_uid || (is_feed_change c.change_type && is_some c.mission_feed_uid)
    then of_row
    else external_kind c.external_data

unfoldable pub kind_of : ChangeRecord → Kind
kind_of c = if is_lifecycle c.change_type then of_mission else other_kind c.content c

abbrev pub is_add : ChangeRecord → Bool
is_add c = c.change_type == add_content

module _ (m : MissionRecord) (latest_create : ℤ) where
  abbrev pub squash_as : Kind → ChangeRecord → Squashed → Squashed
  squash_as of_mission c q =
      if leb_ℤ latest_create c.timestamp_ms
      then record q { lifecycle = q.lifecycle ++ c ∷ [] }
      else q
  squash_as of_row c q =
      if leb_ℤ m.create_time_ms c.timestamp_ms
      then record q { lifecycle = q.lifecycle ++ c ∷ [] }
      else q
  squash_as (of_external change) c q =
      if ltb_ℤ c.timestamp_ms m.create_time_ms then q else record q {
        external =
            merge_into (record { is_add = is_add c; about = change; creator = c.creator_uid }) c
              q.external;
      }
  squash_as (of_content content) c q =
      if ltb_ℤ c.timestamp_ms m.create_time_ms || not (bool_eqb (is_add c) (has m content))
      then q
      else record q {
        contents =
            merge_into (record { is_add = is_add c; about = content; creator = c.creator_uid }) c
              q.contents;
      }
  squash_as ignored c q = q

  unfoldable pub squash : List ChangeRecord → Squashed → Squashed
  unfolding kind_of merge_into has
  squash [] q = q
  squash (c ∷ cs) q = squash cs (squash_as (kind_of c) c q)

-- The latest `CREATE_MISSION` of the mission, or `i64::MIN`.
unfoldable pub latest_create_of : (guid : String) → List ChangeRecord → ℤ
latest_create_of guid [] = negsuc (2 ^ 63 - 1)
latest_create_of guid (c ∷ cs) =
    let rest = latest_create_of guid cs in
    if c.mission_guid == guid && c.change_type == create_mission
    then max_ℤ c.timestamp_ms rest
    else rest

abbrev pub newer : ChangeRecord → ChangeRecord → Bool
newer a b = leb b.id a.id

unfoldable pub mine : State → (guid : String) → Window → List ChangeRecord
unfolding window_contains
mine s guid window =
    filter (λ c. c.mission_guid == guid && window_contains window c.server_time_ms) s.changes

unfoldable pub squashed_changes :
    State → (guid : String) → Window → MissionRecord → List ChangeRecord
unfolding squash latest_create_of mine
squashed_changes s guid window m =
    let q =
      squash m (latest_create_of guid s.changes) (mine s guid window)
        (record { lifecycle = []; contents = []; external = [] }) in
    q.lifecycle ++ (values q.contents ++ values q.external)

unfoldable pub changes :
    State → (guid : String) → Window → (squashed : Bool) → Result MissionError (List ChangeRecord)
unfolding existing squashed_changes mine sort_by insert_by
changes s guid window squashed = existing s guid >>= λ m.
    ok (sort_by newer (if squashed then squashed_changes s guid window m else mine s guid window))
