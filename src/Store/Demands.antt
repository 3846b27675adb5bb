-- ===== src/Store/Demands.antt =====
-- backend-go/internal/store/memory.go: demands and their members.
pub mod Invariant
pub mod Effects
use Prim.Native.String.{◌++◌ as str_append}
use chihuo.Base.{String, Bool, true, false, ◌&&◌, none, some, Result, if◌then◌else◌}
use chihuo.Base.Dict.{lookup, insert}
use chihuo.Base.Int.{pos, leb_ℤ, ◌+64◌}
use chihuo.Domain.{Time, Demand, DemandMember}
use chihuo.Domain.DemandStatus
use chihuo.Domain.DemandStatus.{DemandStatus}
use chihuo.Store.{
  Error, not_found, conflict, invalid, CreateDemandInput, CreateMemberInput, ReviewInput,
  MemoryStore, done, fail,
}

-- CreateDemand
unfoldable pub create_demand :
    String → Time → CreateDemandInput → MemoryStore → Result Error Demand × MemoryStore
create_demand new_id now input s =
    let demand : Demand = record {
      spec = input.spec;
      id = new_id;
      created_by = input.created_by;
      minimum_members = input.minimum_members;
      maximum_members = input.maximum_members;
      member_count = pos 0;
      status = DemandStatus.pending_review;
      reviewed_by = "";
      reviewed_at = none;
      review_reason = "";
      created_at = now;
      updated_at = now;
    } in
    done demand (record s { demands = insert demand.id demand s.demands })

-- GetDemand
unfoldable pub get_demand : String → MemoryStore → Result Error Demand × MemoryStore
get_demand id s = elim (lookup id s.demands) [
  | none ↦ fail not_found s
  | some demand ↦ done demand s
]

-- demand.Status == domain.DemandRejected || demand.Status == domain.DemandClosed
unfoldable pub is_rejected_or_closed : DemandStatus → Bool
is_rejected_or_closed DemandStatus.rejected = true
is_rejected_or_closed DemandStatus.closed = true
is_rejected_or_closed _ = false

-- demand.Status == domain.DemandOpen
unfoldable pub is_open : DemandStatus → Bool
is_open DemandStatus.open_status = true
is_open _ = false

-- The key of a member: demandID + ":" + userID.
unfoldable pub member_key : String → String → String
member_key demand_id user_id = str_append demand_id (str_append ":" user_id)

-- The demand after one more member: its count, and READY once an open demand has enough.
unfoldable pub join : Time → Demand → Demand
unfolding is_open
join later demand =
    let count = demand.member_count +64 pos 1 in
    record demand {
      member_count = count;
      status =
          if leb_ℤ demand.minimum_members count && is_open demand.status
          then DemandStatus.ready
          else demand.status;
      updated_at = later;
    }

-- The rest of AddDemandMember, when its checks have passed; `later` is the time read last, for the
-- demand's UpdatedAt.
unfoldable pub admit_member :
    String
    → Time
    → Time
    → CreateMemberInput
    → Demand
    → MemoryStore
    → Result Error (DemandMember × Demand) × MemoryStore
unfolding join
admit_member new_id now later input demand s =
    let member : DemandMember = record {
      id = new_id;
      demand_id = input.demand_id;
      user_id = input.user_id;
      quantity = input.quantity;
      weight_grams = input.weight_grams;
      preferences = input.preferences;
      notes = input.notes;
      created_at = now;
    } in
    let joined : Demand = join later demand in
    done (member, joined)
      (record s {
        members = insert (member_key input.demand_id input.user_id) member s.members;
        demands = insert demand.id joined s.demands;
      })

-- AddDemandMember
unfoldable pub add_demand_member :
    String
    → Time
    → Time
    → CreateMemberInput
    → MemoryStore
    → Result Error (DemandMember × Demand) × MemoryStore
unfolding is_rejected_or_closed
add_demand_member new_id now later input s = elim (lookup input.demand_id s.demands) [
  | none ↦ fail not_found s
  | some demand ↦
      if is_rejected_or_closed demand.status
      then fail invalid s
      else elim (lookup (member_key input.demand_id input.user_id) s.members) [
        | some existing ↦ fail conflict s
        | none ↦
            if leb_ℤ demand.maximum_members demand.member_count
            then fail conflict s
            else admit_member new_id now later input demand s
      ]
]

-- GetDemandMember
unfoldable pub get_demand_member :
    String → String → MemoryStore → Result Error DemandMember × MemoryStore
get_demand_member demand_id user_id s = elim (lookup (member_key demand_id user_id) s.members) [
  | none ↦ fail not_found s
  | some member ↦ done member s
]

-- ReviewDemand
unfoldable pub review_demand :
    Time → String → ReviewInput → MemoryStore → Result Error Demand × MemoryStore
review_demand now id input s = elim (lookup id s.demands) [
  | none ↦ fail not_found s
  | some demand ↦
      let reviewed : Demand = record demand {
        status = DemandStatus.parse input.status;
        reviewed_by = input.reviewer_id;
        review_reason = input.reason;
        reviewed_at = some now;
        updated_at = now;
      } in
      done reviewed (record s { demands = insert id reviewed s.demands })
]
