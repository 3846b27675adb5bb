-- ===== src/Examples/Requests.antt =====
-- Requests to the HTTP layer: an order that a client sends twice with one key, and a demand.
use Prim.Native.String.{◌++◌ as str_append}
use chihuo.Base.{
  ℕ, zero, suc, String, true, some, List, [], ◌∷◌, ◌≡◌, refl, ok, length, str_eq, ◌≤◌, map, All,
}
use chihuo.Base.Int.{pos}
use chihuo.Base.Text.{trim_space}
use chihuo.Base.Dict.{lookup}
use chihuo.Domain.Role.{Role}
use chihuo.Store.{MemoryStore, new_memory_store}
use chihuo.Store.Accounts.{get_idempotency, put_idempotency}
use chihuo.Store.History.{Call}
use chihuo.Http.Replies.{write_raw_json}
use chihuo.Http.Mutations.{
  Request, Encoding, Operation, execute_mutation, keyed_mutation, finish_mutation, remember_reply,
}
use chihuo.Http.Mutations.Records.{steps}
use chihuo.Http.Mutations.Replay.{is_keyed, mutation_replayed}
use chihuo.Http.Contracts.{CreateDemandRequest}
use chihuo.Http.Contracts.Checks.{
  Texts, rune_count, shortened, normalize_strings, normalize_from, admitted, spec_refusal, spec_of,
  to_spec, required_text,
}
use chihuo.Store.Listing.Sets.{AreDistinct}
use chihuo.Http.Contracts.Normal.{IsOrdered, normalize_strings_bounded, to_spec-IsOrdered}

-- An encoding for these examples: a byte for each letter of a text, a digest that tells zeros from
-- other bytes, and data that are bytes already.
bytes_of : String → List ℕ
bytes_of String.[] = []
bytes_of (String.◌∷◌ c s) = 1 ∷ bytes_of s

abbrev sum_of : List ℕ → String
sum_of [] = ""
sum_of (zero ∷ ns) = str_append "0" (sum_of ns)
sum_of (suc n ∷ ns) = str_append "1" (sum_of ns)

abbrev sample_encoding : Encoding (List ℕ)
sample_encoding = record { utf8 = bytes_of; sha256_hex = sum_of; marshal = some }

abbrev order_request : Request
order_request = record {
  method = "POST";
  path = "/v1/orders";
  body = 0 ∷ 1 ∷ [];
  idempotency_key = " k1 ";
}

abbrev other_request : Request
other_request = record order_request { body = 0 ∷ 0 ∷ [] }

abbrev takes_order : Operation (List ℕ)
takes_order s = (ok (pos 201, 7 ∷ []), s)

abbrev later_calls : List Call
later_calls =
    Call.creates_user "u1" 5 (record { name = "Ann"; role = Role.consumer; external_key = "w1" })
    ∷ []

order_is_keyed : is_keyed sample_encoding order_request ≡ true
unfolding is_keyed trim_space bytes_of
order_is_keyed = refl

order_is_taken :
    (execute_mutation sample_encoding 3 "u1" order_request takes_order new_memory_store).0
    ≡ write_raw_json (pos 201) (7 ∷ [])
unfolding execute_mutation keyed_mutation finish_mutation remember_reply get_idempotency
    put_idempotency new_memory_store lookup trim_space bytes_of
order_is_taken = refl

abbrev after_order : MemoryStore
after_order = (execute_mutation sample_encoding 3 "u1" order_request takes_order new_memory_store).1

mutation_replayed_example :
    let s = steps later_calls after_order in
    execute_mutation sample_encoding 9 "u1" order_request takes_order s
    ≡ (write_raw_json (pos 201) (7 ∷ []), s)
mutation_replayed_example =
    mutation_replayed sample_encoding 3 9 "u1" order_request takes_order takes_order
      new_memory_store later_calls (pos 201) (7 ∷ []) order_is_keyed refl order_is_taken

-- Texts whose case conversions change nothing.
abbrev sample_texts : Texts
sample_texts = record {
  to_upper = λ s. s;
  to_lower = λ s. s;
  byte_length = rune_count;
  is_date = λ s. str_eq s "2026-03-01";
  is_clock = λ s. str_eq s "12:30";
}

abbrev tags : List String
tags = " vegan" ∷ "" ∷ "vegan " ∷ "halal" ∷ "spicy" ∷ []

repetitions_are_dropped : normalize_strings sample_texts tags 2 3 ≡ "veg" ∷ "hal" ∷ []
unfolding normalize_strings normalize_from admitted trim_space shortened rune_count
repetitions_are_dropped = refl

normalize_strings_bounded_example :
    let result = normalize_strings sample_texts tags 2 3 in
    (length result ≤ 2)
    × All (λ v. rune_count v ≤ 3) result
    × AreDistinct (map sample_texts.to_lower result)
normalize_strings_bounded_example = normalize_strings_bounded sample_texts tags 2 3

abbrev lunch_request : CreateDemandRequest
lunch_request = record {
  category = "lunch";
  title = " Lunch for ten ";
  service_area = "north";
  serving_date = "2026-03-01";
  serving_time = "12:30";
  budget_min_cents = pos 1000;
  budget_max_cents = pos 2000;
  quantity = pos 1;
  weight_min_grams = pos 300;
  weight_max_grams = pos 500;
  hard_constraints = tags;
  preferences = [];
  notes = "";
  minimum_members = pos 5;
  maximum_members = pos 10;
}

lunch_is_accepted : to_spec sample_texts lunch_request ≡ ok (spec_of sample_texts lunch_request)
unfolding to_spec spec_refusal required_text trim_space rune_count
lunch_is_accepted = refl

to_spec-IsOrdered_example :
    IsOrdered sample_texts lunch_request (spec_of sample_texts lunch_request)
to_spec-IsOrdered_example =
    to_spec-IsOrdered sample_texts lunch_request (spec_of sample_texts lunch_request)
      lunch_is_accepted
