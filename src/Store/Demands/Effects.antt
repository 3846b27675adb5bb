-- ===== src/Store/Demands/Effects.antt =====
-- What a successful AddDemandMember has done, and a demand that can no longer become READY.
use chihuo.Base.{
  String, ◌≡◌, refl, sym, ◌∙◌, ◌≢◌, ◌⊎◌, ◌&&◌, true, false, inl, inr, none, some, Option-cases,
  Result, ok, err, List, [], ◌∷◌, if◌then◌else◌,
}
use chihuo.Base.Dict.{
  Dict, Each-insert, Each, lookup, lookup-insert_at, lookup-insert_ne, lookup-insert_self,
}
use chihuo.Base.Int.{pos, leb_ℤ, ◌+64◌}
use chihuo.Domain.{Time, Demand, DemandMember}
use chihuo.Domain.DemandStatus
use chihuo.Domain.DemandStatus.{DemandStatus}
use chihuo.Store.{Error, CreateMemberInput, ReviewInput, MemoryStore}
use chihuo.Store.Demands.{
  is_rejected_or_closed, is_open, member_key, join, admit_member, add_demand_member, review_demand,
}
use chihuo.Store.Demands.Invariant.{add_demand_member_cases}

-- What joining has done: the member m is stored under the key of its demand and user, where nothing
-- was; the demand d, neither rejected nor closed nor full, is now d', with one member more, and an
-- open demand that has its minimum is ready; and every other demand and member is as it was.
pub record HasJoined (input : CreateMemberInput) (s s' : MemoryStore) (m : DemandMember)
    (d d' : Demand) : Type 0 where
  pub was : lookup input.demand_id s.demands ≡ some d
  pub active : is_rejected_or_closed d.status ≡ false
  pub room : leb_ℤ d.maximum_members d.member_count ≡ false
  pub fresh : lookup (member_key input.demand_id input.user_id) s.members ≡ none
  pub joined : lookup (member_key input.demand_id input.user_id) s'.members ≡ some m
  pub of_demand : m.demand_id ≡ input.demand_id
  pub of_user : m.user_id ≡ input.user_id
  pub now_is : lookup input.demand_id s'.demands ≡ some d'
  pub counted : d'.member_count ≡ d.member_count +64 pos 1
  pub limit : d'.maximum_members ≡ d.maximum_members
  pub status_now : d'.status ≡ (
      if leb_ℤ d'.minimum_members d'.member_count && is_open d.status
      then DemandStatus.ready
      else d.status)
  pub other_demands : (j : String) → input.demand_id ≢ j → lookup j s'.demands ≡ lookup j s.demands
  pub other_members :
      (j : String)
      → member_key input.demand_id input.user_id ≢ j
      → lookup j s'.members ≡ lookup j s.members

-- How a call of AddDemandMember ends.
abbrev pub Outcome :
    CreateMemberInput → MemoryStore → Result Error (DemandMember × Demand) × MemoryStore → Type 0
Outcome input s (r, s') =
    ((e : Error) × (r ≡ err e) × (s' ≡ s))
    ⊎ ((m : DemandMember) × (d : Demand) × (d' : Demand) × (r ≡ ok (m, d'))
        × HasJoined input s s' m d d')

admit_member-Outcome :
    (new_id : String) (now later : Time) (input : CreateMemberInput) (s : MemoryStore) (d : Demand)
    → d.id ≡ input.demand_id
    → lookup input.demand_id s.demands ≡ some d
    → is_rejected_or_closed d.status ≡ false
    → lookup (member_key input.demand_id input.user_id) s.members ≡ none
    → leb_ℤ d.maximum_members d.member_count ≡ false
    → Outcome input s (admit_member new_id now later input d s)
unfolding admit_member join
admit_member-Outcome new_id now later input s d keyed found active fresh room = inr (
  _,
  d,
  join later d,
  refl,
  record {
    was = found;
    active = active;
    room = room;
    fresh = fresh;
    joined = lookup-insert_self (member_key input.demand_id input.user_id) _ s.members;
    of_demand = refl;
    of_user = refl;
    now_is = lookup-insert_at d.id input.demand_id (join later d) s.demands keyed;
    counted = refl;
    limit = refl;
    status_now = refl;
    other_demands =
        λ j ne. lookup-insert_ne d.id j (join later d) s.demands (λ e. ne (sym keyed ∙ e));
    other_members = λ j ne. lookup-insert_ne _ j _ s.members ne;
  },
)

-- Every demand carries its key as its id.
abbrev pub AreKeyed : Dict Demand → Type 0
AreKeyed demands = Each (λ k d. d.id ≡ k) demands

-- AddDemandMember, in a store whose demands carry their keys as ids, either returns an error and
-- leaves the store exactly as it was, or returns the new member and its demand, and has done what
-- HasJoined lists.
pub add_demand_member_effect :
    (new_id : String) (now later : Time) (input : CreateMemberInput) (s : MemoryStore)
    → AreKeyed s.demands
    → Outcome input s (add_demand_member new_id now later input s)
add_demand_member_effect new_id now later input s keyed =
    add_demand_member_cases (Outcome input s) new_id now later input s (λ e. inl (e, refl, refl))
      (λ d found active fresh room.
        admit_member-Outcome new_id now later input s d (keyed input.demand_id d found) found active
          fresh room)

-- Calls of AddDemandMember one after another: id, the two times and the input of each.
unfoldable pub add_all : List (String × Time × Time × CreateMemberInput) → MemoryStore → MemoryStore
add_all [] s = s
add_all ((id, now, later, input) ∷ calls) s =
    add_all calls (add_demand_member id now later input s).1

add_demand_member-AreKeyed :
    (new_id : String) (now later : Time) (input : CreateMemberInput) (s : MemoryStore)
    → AreKeyed s.demands
    → AreKeyed (add_demand_member new_id now later input s).1.demands
add_demand_member-AreKeyed new_id now later input s keyed =
    add_demand_member_cases (λ r. AreKeyed r.1.demands) new_id now later input s (λ e. keyed)
      (λ d _ _ _ _.
        unfold admit_member in
        unfold join in Each-insert (λ k x. x.id ≡ k) d.id _ s.demands refl keyed)

review_demand-AreKeyed :
    (now : Time) (id : String) (input : ReviewInput) (s : MemoryStore)
    → AreKeyed s.demands
    → AreKeyed (review_demand now id input s).1.demands
unfolding review_demand
review_demand-AreKeyed now id input s keyed = elim (Option-cases (lookup id s.demands)) [
  | inl missing ↦ rw (missing, review_demand) keyed
  | inr (d, found) ↦
      rw (found, review_demand)
        (Each-insert (λ k x. x.id ≡ k) id _ s.demands (keyed id d found) keyed)
]

-- A demand whose counter has reached its limit is not changed by further calls.
full_demand_stays :
    (calls : List (String × Time × Time × CreateMemberInput)) (s : MemoryStore) (k : String)
    (d : Demand)
    → AreKeyed s.demands
    → lookup k s.demands ≡ some d
    → leb_ℤ d.maximum_members d.member_count ≡ true
    → lookup k (add_all calls s).demands ≡ some d
unfolding add_all
full_demand_stays [] s k d keyed found full = found
full_demand_stays ((id, now, later, input) ∷ calls) s k d keyed found full =
    full_demand_stays calls (add_demand_member id now later input s).1 k d
      (add_demand_member-AreKeyed id now later input s keyed)
      (elim (add_demand_member_effect id now later input s keyed) [
        | inl (e, refused, same) ↦ rw same found
        | inr (m, d₀, d', answer, h) ↦
            h.other_demands k (λ e. cc (full, h.room, found, h.was, e)) ∙ found
      ])
      full

-- In a store whose demands carry their keys as ids, a demand that is full when a review sets it to OPEN, whether or not its minimum is
-- reached, is still OPEN, not READY, after the review and any calls of AddDemandMember that follow it.
pub full_demand_never_ready :
    (now : Time) (id : String) (input : ReviewInput) (s : MemoryStore) (d : Demand)
    (calls : List (String × Time × Time × CreateMemberInput))
    → AreKeyed s.demands
    → lookup id s.demands ≡ some d
    → leb_ℤ d.maximum_members d.member_count ≡ true
    → input.status ≡ "OPEN"
    → (d' : Demand) × (lookup id (add_all calls (review_demand now id input s).1).demands ≡ some d')
      × (d'.status ≡ DemandStatus.open_status)
full_demand_never_ready now id input s d calls keyed found full opening =
    let reviewed : Demand = record d {
      status = DemandStatus.parse input.status;
      reviewed_by = input.reviewer_id;
      review_reason = input.reason;
      reviewed_at = some now;
      updated_at = now;
    } in
    let stored : lookup id (review_demand now id input s).1.demands ≡ some reviewed =
      unfold review_demand in
      rw (found, review_demand) (lookup-insert_self id reviewed s.demands) in
    (
      reviewed,
      full_demand_stays calls (review_demand now id input s).1 id reviewed
          (review_demand-AreKeyed now id input s keyed) stored full,
      rw opening (unfold DemandStatus.parse in refl),
    )
