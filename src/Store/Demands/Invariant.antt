-- ===== src/Store/Demands/Invariant.antt =====
-- What holds between the demands and their members in the in-memory store: the counter of a demand
-- is the number of its members, and stays within the demand's limit.
use chihuo.Base.{
  ℕ, ◌+◌, ◌^◌, String, ◌≡◌, refl, sym, subst₂, ◌∙◌, ap, ◌≢◌, false, ◌⊎◌, inl, inr, none, some,
  Result, err, arith, str_eq, eq_iff, if◌then◌else◌, Bool-cases, Option-cases,
}
use chihuo.Base.Dict.{
  Dict, lookup, insert, values, lookup-insert_cases, lookup-insert-none, Each, Each-insert, total,
  total-insert_new,
}
use chihuo.Base.Int.{ℤ, pos, ◌≤ℤ◌, ◌<ℤ◌, leb_ℤ, ◌+64◌, +64_exact}
use chihuo.Domain.{Time, Demand, DemandMember}
use chihuo.Store.{
  Error, not_found, invalid, conflict, CreateDemandInput, CreateMemberInput, ReviewInput,
  MemoryStore, new_memory_store,
}
use chihuo.Store.Demands.{
  create_demand, is_rejected_or_closed, member_key, join, admit_member, add_demand_member,
  review_demand,
}

-- 1 for a member of the demand `k`, 0 for any other.
abbrev pub belongs : String → DemandMember → ℕ
belongs k m = if str_eq m.demand_id k then 1 else 0

-- How many members a demand has.
abbrev pub members_of : String → Dict DemandMember → ℕ
members_of k members = total (belongs k) (values members)

-- What holds of the demand stored under `k`.
pub record IsCounted (members : Dict DemandMember) (k : String) (d : Demand) : Type 0 where
  pub keyed : d.id ≡ k
  pub counted : d.member_count ≡ pos (members_of k members)
  pub limited : (members_of k members ≡ 0) ⊎ (pos (members_of k members) ≤ℤ d.maximum_members)
  pub fits : d.maximum_members <ℤ pos (2 ^ 63)

pub record MembersConsistent (demands : Dict Demand) (members : Dict DemandMember) : Type 0 where
  pub each : Each (IsCounted members) demands
  -- nobody is a member of a demand that is not there
  pub strangers : (k : String) → lookup k demands ≡ none → members_of k members ≡ 0

pub new-MembersConsistent : MembersConsistent new_memory_store.demands new_memory_store.members
unfolding new_memory_store lookup values total
new-MembersConsistent = record { each = λ k v e. cc; strangers = λ k e. refl }

-- A new demand under a fresh id.
pub create_demand-MembersConsistent :
    (new_id : String) (now : Time) (input : CreateDemandInput) (s : MemoryStore)
    → lookup new_id s.demands ≡ none
    → input.maximum_members <ℤ pos (2 ^ 63)
    → MembersConsistent s.demands s.members
    → let s' = (create_demand new_id now input s).1 in MembersConsistent s'.demands s'.members
unfolding create_demand
create_demand-MembersConsistent new_id now input s fresh fits inv = record {
  each =
      Each-insert (IsCounted s.members) new_id _ s.demands
        (record {
          keyed = refl;
          counted = ap pos (sym (inv.strangers new_id fresh));
          limited = inl (inv.strangers new_id fresh);
          fits = fits;
        })
        inv.each;
  strangers = λ k e. inv.strangers k (lookup-insert-none new_id k _ s.demands e);
}

-- Any change of a demand that keeps its id, counter and limit.
update-MembersConsistent :
    (k : String) (d d' : Demand) (demands : Dict Demand) (members : Dict DemandMember)
    → lookup k demands ≡ some d
    → d'.id ≡ d.id
    → d'.member_count ≡ d.member_count
    → d'.maximum_members ≡ d.maximum_members
    → MembersConsistent demands members
    → MembersConsistent (insert k d' demands) members
update-MembersConsistent k d d' demands members found ids counts limits inv =
    let old = inv.each k d found in
    record {
      each =
          Each-insert (IsCounted members) k d' demands
            (record {
              keyed = ids ∙ old.keyed;
              counted = counts ∙ old.counted;
              limited = rw limits old.limited;
              fits = rw limits old.fits;
            })
            inv.each;
      strangers = λ j e. inv.strangers j (lookup-insert-none k j d' demands e);
    }

pub review_demand-MembersConsistent :
    (now : Time) (id : String) (input : ReviewInput) (s : MemoryStore)
    → MembersConsistent s.demands s.members
    → let s' = (review_demand now id input s).1 in MembersConsistent s'.demands s'.members
unfolding review_demand
review_demand-MembersConsistent now id input s inv = elim (Option-cases (lookup id s.demands)) [
  | inl missing ↦ rw (missing, review_demand) inv
  | inr (d, found) ↦
      rw (found, review_demand)
        (update-MembersConsistent id d _ s.demands s.members found refl refl refl inv)
]

-- The two ways that AddDemandMember ends.
pub add_demand_member_cases {ℓ} :
    (P : Result Error (DemandMember × Demand) × MemoryStore → Type ℓ) (new_id : String)
    (now later : Time) (input : CreateMemberInput) (s : MemoryStore)
    → ((e : Error) → P (err e, s))
    → ((d : Demand)
        → lookup input.demand_id s.demands ≡ some d
        → is_rejected_or_closed d.status ≡ false
        → lookup (member_key input.demand_id input.user_id) s.members ≡ none
        → leb_ℤ d.maximum_members d.member_count ≡ false
        → P (admit_member new_id now later input d s))
    → P (add_demand_member new_id now later input s)
unfolding add_demand_member
add_demand_member_cases P new_id now later input s failed admitted =
    elim (Option-cases (lookup input.demand_id s.demands)) [
      | inl missing ↦ rw (missing, add_demand_member) (failed not_found)
      | inr (d, found) ↦ elim (Bool-cases (is_rejected_or_closed d.status)) [
        | inl refused ↦ rw (found, add_demand_member) (rw refused (failed invalid))
        | inr active ↦
            elim (Option-cases (lookup (member_key input.demand_id input.user_id) s.members)) [
              | inr (m, joined) ↦
                  rw (found, add_demand_member)
                    (rw active (rw (joined, add_demand_member) (failed conflict)))
              | inl fresh ↦ elim (Bool-cases (leb_ℤ d.maximum_members d.member_count)) [
                | inl full ↦
                    rw (found, add_demand_member)
                      (rw active (rw (fresh, add_demand_member) (rw full (failed conflict))))
                | inr room ↦
                    rw (found, add_demand_member)
                      (rw active (
                        rw (fresh, add_demand_member)
                          (rw room (admitted d found active fresh room))))
              ]
            ]
      ]
    ]

-- A full count of the demands' members after one more.
members_of-admit :
    (new_id : String) (now later : Time) (input : CreateMemberInput) (d : Demand) (s : MemoryStore)
    → lookup (member_key input.demand_id input.user_id) s.members ≡ none
    → (k : String)
    → members_of k (admit_member new_id now later input d s).1.members
      ≡ members_of k s.members + (if str_eq input.demand_id k then 1 else 0)
unfolding admit_member
members_of-admit new_id now later input d s fresh k =
    total-insert_new (belongs k) _ _ s.members fresh

-- A counter that is below its limit can be raised by one.
raise_counter :
    (n : ℕ) (count limit : ℤ)
    → count ≡ pos n
    → limit <ℤ pos (2 ^ 63)
    → leb_ℤ limit count ≡ false
    → (count +64 pos 1 ≡ pos (n + 1)) × (pos (n + 1) ≤ℤ limit)
raise_counter n count limit e fits room = ground (arith, +64_exact n 1)

join-IsCounted :
    (members members' : Dict DemandMember) (k : String) (later : Time) (d : Demand)
    → leb_ℤ d.maximum_members d.member_count ≡ false
    → members_of k members' ≡ members_of k members + 1
    → IsCounted members k d
    → IsCounted members' k (join later d)
unfolding join
join-IsCounted members members' k later d room more old =
    let (raised, within) =
      raise_counter (members_of k members) d.member_count d.maximum_members old.counted old.fits
        room in
    record {
      keyed = old.keyed;
      counted = raised ∙ ap pos (sym more);
      limited = inr (rw more within);
      fits = old.fits;
    }

admit_member-MembersConsistent :
    (new_id : String) (now later : Time) (input : CreateMemberInput) (s : MemoryStore) (d : Demand)
    → lookup input.demand_id s.demands ≡ some d
    → lookup (member_key input.demand_id input.user_id) s.members ≡ none
    → leb_ℤ d.maximum_members d.member_count ≡ false
    → MembersConsistent s.demands s.members
    → let s' = (admit_member new_id now later input d s).1 in
      MembersConsistent s'.demands s'.members
unfolding admit_member
admit_member-MembersConsistent new_id now later input s d found fresh room inv = record {
  each = λ k v e. elim (lookup-insert_cases d.id k (join later d) v s.demands e) [
    | inl (same_key, same_value) ↦
        subst₂ (λ j w. IsCounted after.members j w) (sym old.keyed ∙ same_key) same_value
          (join-IsCounted s.members after.members input.demand_id later d room
            (ground (arith, count input.demand_id, eq_iff input.demand_id input.demand_id)) old)
    | inr (other_key, stored) ↦
        let was = inv.each k v stored in
        let same = unmoved k (λ e. other_key (old.keyed ∙ e)) in
        record {
          keyed = was.keyed;
          counted = was.counted ∙ ap pos (sym same);
          limited = rw same was.limited;
          fits = was.fits;
        }
  ];
  strangers = λ k e.
      let missing = lookup-insert-none d.id k (join later d) s.demands e in
      unmoved k (λ same. cc (ap (λ i. lookup i s.demands) same)) ∙ inv.strangers k missing;
}
  where
    after : MemoryStore
    after = (admit_member new_id now later input d s).1

    old : IsCounted s.members input.demand_id d
    old = inv.each input.demand_id d found

    count :
        (k : String)
        → members_of k after.members
          ≡ members_of k s.members + (if str_eq input.demand_id k then 1 else 0)
    count = members_of-admit new_id now later input d s fresh

    unmoved :
        (k : String) → input.demand_id ≢ k → members_of k after.members ≡ members_of k s.members
    unmoved k ne = ground (arith, count k, eq_iff input.demand_id k)

-- Every call of AddDemandMember keeps the counters exact and within their limits.
pub add_demand_member-MembersConsistent :
    (new_id : String) (now later : Time) (input : CreateMemberInput) (s : MemoryStore)
    → MembersConsistent s.demands s.members
    → let s' = (add_demand_member new_id now later input s).1 in
      MembersConsistent s'.demands s'.members
add_demand_member-MembersConsistent new_id now later input s inv =
    add_demand_member_cases (λ r. MembersConsistent r.1.demands r.1.members) new_id now later input
      s (λ e. inv)
      (λ d found active fresh room.
        admit_member-MembersConsistent new_id now later input s d found fresh room inv)
