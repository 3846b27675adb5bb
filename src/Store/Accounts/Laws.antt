-- ===== src/Store/Accounts/Laws.antt =====
-- Idempotency records are written once; users and merchants are created once for a key.
use Prim.Native.String.{count}
use text.Mathlib.TextLemmas.{append_inj, append_cancel_left}
use chihuo.Base.{String, ◌≡◌, refl, ◌⊎◌, inl, inr, none, some, ok, err, arith, eq_iff, Option-cases}
use chihuo.Base.Dict.{lookup, insert, lookup-insert_self}
use chihuo.Domain.{Time, User, Merchant, IdempotencyRecord}
use chihuo.Domain.MerchantStatus
use chihuo.Store.{not_found, CreateUserInput, CreateMerchantInput, MemoryStore}
use chihuo.Store.Accounts.{
  create_or_get_user, create_or_get_merchant, get_idempotency, put_idempotency, idempotency_key,
}

-- After PutIdempotency without an error, GetIdempotency of that actor and key returns the record that
-- was there before, which has the same fingerprint, or, where there was none, the record put, with
-- every field as it was; a second PutIdempotency of the same record succeeds and changes nothing.
pub put_idempotency_once :
    (entry : IdempotencyRecord) (s : MemoryStore)
    → (put_idempotency entry s).0 ≡ none
    → let s' = (put_idempotency entry s).1 in
      (found : IdempotencyRecord) × ((get_idempotency entry.actor_id entry.key s').0 ≡ ok found)
      × (found.fingerprint ≡ entry.fingerprint)
      × (((get_idempotency entry.actor_id entry.key s).0 ≡ ok found)
          ⊎ (((get_idempotency entry.actor_id entry.key s).0 ≡ err not_found) × (found ≡ entry)))
      × (put_idempotency entry s' ≡ (none, s'))
unfolding put_idempotency get_idempotency
put_idempotency_once entry s h =
    elim (Option-cases (lookup (idempotency_key entry.actor_id entry.key) s.idempotency)) [
      | inl fresh ↦ (
        entry,
        ground (arith, self, fresh),
        refl,
        inr (ground (arith, fresh), refl),
        ground (arith, self, fresh, eq_iff entry.fingerprint entry.fingerprint),
      )
      | inr (old, stored) ↦ (
        old,
        ground (arith, stored),
        ground (arith, stored, eq_iff old.fingerprint entry.fingerprint),
        inl (ground (arith, stored)),
        ground (arith, stored),
      )
    ]
  where
    self :
        lookup
          (idempotency_key entry.actor_id entry.key)
          (insert (idempotency_key entry.actor_id entry.key) entry s.idempotency)
        ≡ some entry
    self = lookup-insert_self (idempotency_key entry.actor_id entry.key) entry s.idempotency

-- CreateOrGetUser creates once for an external key: a later call with that key, whatever name, role,
-- fresh id and time it brings, returns the user of the first and leaves the store as it is.
pub create_or_get_user_once :
    (id later_id : String) (now later : Time) (input again : CreateUserInput) (s : MemoryStore)
    → again.external_key ≡ input.external_key
    → let (r, s') = create_or_get_user id now input s in
      create_or_get_user later_id later again s' ≡ (r, s')
unfolding create_or_get_user
create_or_get_user_once id later_id now later input again s same =
    elim (Option-cases (lookup input.external_key s.users_by_key)) [
      | inl fresh ↦
          let user : User = record {
            id = id;
            name = input.name;
            role = input.role;
            created_at = now;
          } in
          ground (
            arith,
            fresh,
            lookup-insert_self input.external_key id s.users_by_key,
            lookup-insert_self id user s.users,
          )
      | inr (old, stored) ↦ ground (arith, stored)
    ]

-- CreateOrGetMerchant creates once for an owner: a later call for that owner, whatever name, license,
-- fresh id and time it brings, returns the merchant of the first and leaves the store as it is.
pub create_or_get_merchant_once :
    (id later_id : String) (now later : Time) (input again : CreateMerchantInput) (s : MemoryStore)
    → again.owner_user_id ≡ input.owner_user_id
    → let (r, s') = create_or_get_merchant id now input s in
      create_or_get_merchant later_id later again s' ≡ (r, s')
unfolding create_or_get_merchant
create_or_get_merchant_once id later_id now later input again s same =
    elim (Option-cases (lookup input.owner_user_id s.merchant_by_owner)) [
      | inl fresh ↦
          let merchant : Merchant = record {
            id = id;
            owner_user_id = input.owner_user_id;
            name = input.name;
            status = MerchantStatus.pending;
            license = input.license;
            review_reason = "";
            reviewed_at = none;
            created_at = now;
          } in
          ground (
            arith,
            fresh,
            lookup-insert_self input.owner_user_id id s.merchant_by_owner,
            lookup-insert_self id merchant s.merchants,
          )
      | inr (old, stored) ↦ ground (arith, stored)
    ]

-- Between actors whose ids have one length, as UUIDs do, no two idempotency records share a place in
-- the map, whatever their keys.
pub keys_injective :
    (a a' k k' : String)
    → count a ≡ count a'
    → idempotency_key a k ≡ idempotency_key a' k'
    → (a ≡ a') × (k ≡ k')
unfolding idempotency_key
keys_injective a a' k k' same e =
    let (left, right) = append_inj e same in (left, append_cancel_left ":" k k' right)
