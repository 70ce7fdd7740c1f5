-- ===== src/Api/Response.antt =====
-- The outcomes of the handlers: 204 or 200 with a value, or an error that carries the status code.
pub data Response : Type 0 where
  bad_request unauthorized forbidden not_found conflict internal_error bad_gateway : Response
