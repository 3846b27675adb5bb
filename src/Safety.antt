-- ===== src/Safety.antt =====
-- The food-safety package, backend-go/internal/safety: the records and string types of model.go, the
-- transitions of state.go, the inputs of service.go, the checks of validation.go and the in-memory
-- service of memory.go.
pub mod Status
pub mod Transitions
pub mod Kinds
pub mod Model
pub mod Zero
pub mod Inputs
pub mod Errors
pub mod Platform
pub mod Validation
pub mod Memory
