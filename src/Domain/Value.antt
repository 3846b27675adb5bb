-- ===== src/Domain/Value.antt =====
-- A decoded JSON value: Go's `any` as the licence of a merchant holds it. A number is its text.
use chihuo.Base.{String, Bool}

mutual
  pub data Value : Type 0 where
    null : Value
    bool : Bool → Value
    number text : String → Value
    array : Items → Value
    object : Fields → Value

  pub data Items : Type 0 where
    nil : Items
    cons : Value → Items → Items

  pub data Fields : Type 0 where
    end : Fields
    field : String → Value → Fields → Fields
