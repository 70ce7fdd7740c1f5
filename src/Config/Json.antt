-- ===== src/Config/Json.antt =====
-- A decoded JSON document, as `encoding/json` decodes into `any`.
use cronfoundry.Prelude.{String, Bool}

mutual
  pub data Json : Type 0 where
    null : Json
    bool : Bool → Json
    number : String → Json  -- its literal
    string : String → Json
    array : Elements → Json
    object : Members → Json

  pub data Elements : Type 0 where
    no_elements : Elements
    element : Json → Elements → Elements

  pub data Members : Type 0 where
    no_members : Members
    member : String → Json → Members → Members
