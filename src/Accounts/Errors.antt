-- ===== src/Accounts/Errors.antt =====
-- app/core/exceptions/base.py: the exceptions of the services, with what their messages hold.
use stream_sight_backend.Prelude.{ℕ, String}

pub data Error : Type 0 where
  bad_request : String → Error
  unauthorized : String → Error
  forbidden : String → Error
  -- the entity and the id of "... not found"
  not_found : String → ℕ → Error
  -- the field of `details`
  conflict : String → Error
  business_rule : String → Error
  -- sqlalchemy's IntegrityError, raised by a flush that a constraint refuses, and the DataError of a
  -- text that is too long for its column
  integrity_error : Error
  -- Python's ValueError, TypeError and OverflowError
  value_error : Error
  type_error : Error
  overflow_error : Error
  service_unavailable : String → Error
  -- the RuntimeError of the bootstrap
  runtime_error : String → Error

-- `status_code` of each class; an exception that is no AppException is answered by 500
abbrev pub status_code : Error → ℕ
status_code (bad_request _) = 400
status_code (unauthorized _) = 401
status_code (forbidden _) = 403
status_code (not_found _ _) = 404
status_code (conflict _) = 409
status_code (business_rule _) = 422
status_code integrity_error = 500
status_code value_error = 500
status_code type_error = 500
status_code overflow_error = 500
status_code (service_unavailable _) = 503
status_code (runtime_error _) = 500

pub data Result {ℓ} (A : Type ℓ) : Type ℓ where
  ok : A → Result A
  err : Error → Result A
