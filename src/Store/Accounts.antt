-- ===== src/Store/Accounts.antt =====
-- backend-go/internal/store/memory.go: users, merchants and the records of idempotent requests.
pub mod Laws
use Prim.Native.String.{◌++◌ as str_append}
use chihuo.Base.{String, Option, none, some, Result, not, str_eq, if◌then◌else◌}
use chihuo.Base.Dict.{lookup, get_or, insert}
use chihuo.Domain.{Time, User, Merchant, IdempotencyRecord}
use chihuo.Domain.MerchantStatus
use chihuo.Store.{
  Error, not_found, conflict, CreateUserInput, CreateMerchantInput, ReviewInput, MemoryStore, done,
  fail, zero_user, zero_merchant,
}

-- CreateOrGetUser
unfoldable pub create_or_get_user :
    String → Time → CreateUserInput → MemoryStore → Result Error User × MemoryStore
unfolding get_or
create_or_get_user new_id now input s = elim (lookup input.external_key s.users_by_key) [
  | some id ↦ done (get_or zero_user id s.users) s
  | none ↦
      let user : User = record {
        id = new_id;
        name = input.name;
        role = input.role;
        created_at = now;
      } in
      done user (record s {
        users = insert user.id user s.users;
        users_by_key = insert input.external_key user.id s.users_by_key;
      })
]

-- GetUser
unfoldable pub get_user : String → MemoryStore → Result Error User × MemoryStore
get_user id s = elim (lookup id s.users) [ none ↦ fail not_found s | some user ↦ done user s ]

-- CreateOrGetMerchant
unfoldable pub create_or_get_merchant :
    String → Time → CreateMerchantInput → MemoryStore → Result Error Merchant × MemoryStore
unfolding get_or
create_or_get_merchant new_id now input s = elim (lookup input.owner_user_id s.merchant_by_owner) [
  | some id ↦ done (get_or zero_merchant id s.merchants) s
  | none ↦
      let merchant : Merchant = record {
        id = new_id;
        owner_user_id = input.owner_user_id;
        name = input.name;
        status = MerchantStatus.pending;
        license = input.license;
        review_reason = "";
        reviewed_at = none;
        created_at = now;
      } in
      done merchant (record s {
        merchants = insert merchant.id merchant s.merchants;
        merchant_by_owner = insert merchant.owner_user_id merchant.id s.merchant_by_owner;
      })
]

-- GetMerchant
unfoldable pub get_merchant : String → MemoryStore → Result Error Merchant × MemoryStore
get_merchant id s = elim (lookup id s.merchants) [
  | none ↦ fail not_found s
  | some merchant ↦ done merchant s
]

-- ReviewMerchant
unfoldable pub review_merchant :
    Time → String → ReviewInput → MemoryStore → Result Error Merchant × MemoryStore
review_merchant now id input s = elim (lookup id s.merchants) [
  | none ↦ fail not_found s
  | some merchant ↦
      let reviewed : Merchant = record merchant {
        status = MerchantStatus.parse input.status;
        review_reason = input.reason;
        reviewed_at = some now;
      } in
      done reviewed (record s { merchants = insert id reviewed s.merchants })
]

-- The key of an idempotency record: actorID + ":" + key.
unfoldable pub idempotency_key : String → String → String
idempotency_key actor_id key = str_append actor_id (str_append ":" key)

-- GetIdempotency
unfoldable pub get_idempotency :
    String → String → MemoryStore → Result Error IdempotencyRecord × MemoryStore
get_idempotency actor_id key s = elim (lookup (idempotency_key actor_id key) s.idempotency) [
  | none ↦ fail not_found s
  | some found ↦ done found s
]

-- PutIdempotency: an error, or none
unfoldable pub put_idempotency : IdempotencyRecord → MemoryStore → Option Error × MemoryStore
put_idempotency entry s =
    let key = idempotency_key entry.actor_id entry.key in
    elim (lookup key s.idempotency) [
      | some existing ↦
          if not (str_eq existing.fingerprint entry.fingerprint)
          then (some conflict, s)
          else (none, s)
      | none ↦ (none, record s { idempotency = insert key entry s.idempotency })
    ]
