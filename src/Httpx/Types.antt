-- ===== src/Httpx/Types.antt =====
-- The types of include/httpx.h that the sending of a request uses.
use toolx_cpp.Prelude.{ℕ, Bool, List, Option, Bytes}

pub data HttpMethod : Type 0 where
  get post put patch delete head options connect trace : HttpMethod

pub data ErrorKind : Type 0 where
  no_error invalid_argument invalid_url unsupported_scheme timeout network proxy tls protocol
        redirect transport_unavailable internal circuit_open :
      ErrorKind

-- An error without its message and its HTTP status.
pub record Error : Type 0 where
  pub kind : ErrorKind
  pub retryable : Bool

abbrev pub HeaderList : Type 0
HeaderList = List (Bytes × Bytes)

pub record Response : Type 0 where
  pub status_code : ℕ
  pub reason : Bytes
  pub headers : HeaderList
  pub body : Bytes

pub data Outcome : Type 0 where
  ok : Response → Outcome
  failed : Error → Outcome

-- What the callback at the start of an attempt does.
pub data Start : Type 0 where
  initialized not_initialized throws : Start

-- A request: of a part of its body it has the data, and of its callbacks the one at the start of an attempt.
pub record Request : Type 0 where
  pub method : HttpMethod
  pub url : Bytes
  pub headers : HeaderList
  pub body : Bytes
  pub multipart : List Bytes
  pub on_attempt_start : Option (ℕ → Start)

-- The options that `Send` itself reads.
pub record ClientOptions : Type 0 where
  pub max_body_bytes : ℕ
  pub max_header_bytes : ℕ
  pub max_retry_attempts : ℕ
  pub max_attempts : ℕ
  pub retry_transient_errors : Bool
  pub should_retry : Option (Error → ℕ → Bool)
  pub breaker_enabled : Bool
  pub failure_threshold : ℕ
  pub reset_timeout_ms : ℕ
