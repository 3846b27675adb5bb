-- ===== src/Lib.antt =====
-- Verification library of chihuo, a marketplace of group meals: consumers join a demand, merchants
-- answer it with offers, an offer becomes a campaign that takes orders, orders are paid and perhaps
-- refunded, and the food is traced for safety. The library models the Go back end, backend-go.
--
-- The parts, and the files that model them:
--
--   Base           shared notation, Go's int64 with its wrap-around, text, and maps
--   Domain         backend-go/internal/domain/models.go: the records and statuses
--   Store          backend-go/internal/store/store.go and memory.go: the in-memory store. Accounts,
--                  Demands, Offers, Campaigns, Orders and Listing hold its operations; Frames says
--                  what each leaves alone and History runs them in any order
--   Payment        backend-go/internal/payment: State models state.go, Requests the types and checks
--                  of types.go and noop.go, Sandbox the provider of sandbox.go, Callback the
--                  parser of callback.go, Keys the keys of idempotency.go
--   Limiter        backend-go/internal/ratelimit/limiter.go: the limiter of one process
--   Safety         backend-go/internal/safety, the food-safety service in memory. Status, Kinds, Model
--                  and Zero are model.go, Transitions state.go, Inputs service.go, Errors errors.go,
--                  Validation validation.go, and Platform what the package uses of Go's libraries.
--                  Memory is the service of memory.go: Qualifications, Batches, Incidents, Recalls,
--                  Dispositions, Chains (evidence) and Lists hold its operations
--   Safety/Memory  its proofs: Cases and Calls take the operations apart, Atomicity is about failed
--                  calls, Lifecycle is an abstract machine for one batch, Containment, Recalled and
--                  Qualifications/Inspected follow incidents, recalls and qualifications through
--                  each call, and History runs all calls in any order
--   Http           backend-go/internal/httpapi: Contracts is contracts.go, Replies and Mutations are the
--                  replies and the idempotent mutations of json.go over the store
--   Examples       runs on concrete data
--
-- How the code corresponds to the model. A method of MemoryStore, SandboxProvider or MemoryService
-- holds its object's lock from before its first access of the object's data to its return, so it
-- is one step: a function from its inputs and the state to its result and the state after.
-- CreateOrder is create_order, and so on. The ids that newID draws and the times that the clock
-- gives are arguments, as is the order in which a loop visits a map. Maps are association lists;
-- integers are ℤ, with sums and products of the source wrapped to 64 bits. An error is a value of
-- a data type. In the food-safety service an error that wraps another with a message is the one
-- wrapped, and a status change keeps its statuses where the code keeps their strings. Times are
-- nanoseconds since Go's zero time, and a sum of a time and a duration stops there. Copies that
-- the code makes of slices and maps keep values apart and do not show in the model; the one nested
-- value that is copied only at its top, a merchant's licence, is never written to.
--
-- Parameters: case conversion and folding of Unicode text, encoding/json and SHA-256 (the records
-- Codec and Decoder), RFC 3339 times, and signature verifiers; for the food-safety service, the
-- record Platform; for the HTTP layer, Encoding and Texts. Nothing is assumed of them. Histories
-- of the store assume that a drawn id is fresh, that limits of members are below 2^63 and those of
-- orders, and quantities, below 2^62, and that a quantity is not negative. Histories of the
-- food-safety service assume that the ids drawn for a batch and for evidence are fresh. A mutation
-- holds the lock of its actor and key throughout. The loops are structural; only the printing of a
-- number in decimal has fuel, which is the number itself, more than its digits.
--
-- Not modelled: the PostgreSQL stores, which are SQL; HTTP handlers and the decoding of requests,
-- tokens, configuration; the no-op payment provider and the Redis limiter; the front ends.
pub mod Base
pub mod Payment
pub mod Domain
pub mod Store
pub mod Safety
pub mod Http
pub mod Limiter
pub mod Examples
