-- ===== src/Accounts/Claims.antt =====
-- app/core/auth/jwt.py: the claims that are signed into an access token, and those that are read
-- back. `jwt.encode` and `jwt.decode` are the library PyJWT and stand in `Accounts.World.Env`.
use stream_sight_backend.Prelude.{ℕ, ◌+◌, ◌*◌, Option, none, some, String}
use stream_sight_backend.Accounts.Enums.{Role, role_value, role_of_value}

-- The claims of `create_access_token`. `sub` is the number whose decimal text is signed.
pub record Claims : Type 0 where
  pub sub : ℕ
  pub type : String
  pub role : ℕ
  pub grade : Option ℕ
  pub sid : Option String
  pub iat : ℕ
  pub exp : ℕ

-- A `sub` claim as `int(...)` reads it: a number, or a text on which it raises ValueError.
pub data Subject : Type 0 where
  decimal : ℕ → Subject
  malformed : Subject

-- A `role` claim: a number, or a value of another type, on which `Role(...)` raises ValueError.
pub data RoleClaim : Type 0 where
  number : ℕ → RoleClaim
  other : RoleClaim

-- A decoded payload, in which any claim may be missing.
pub record Payload : Type 0 where
  pub sub : Option Subject
  pub type : Option String
  pub role : Option RoleClaim
  pub grade : Option ℕ
  pub sid : Option String

pub data Decoded : Type 0 where
  decoded : Payload → Decoded
  -- ExpiredSignatureError, and any other InvalidTokenError
  expired invalid : Decoded

-- `create_access_token(subject, role, grade=, sid=)` read at `now` with the default lifetime
abbrev pub create_access_token : ℕ → ℕ → ℕ → Role → Option ℕ → Option String → Claims
create_access_token now ttl_seconds subject role grade sid = record {
  sub = subject;
  type = "access";
  role = role_value role;
  grade = grade;
  sid = sid;
  iat = now;
  exp = now + ttl_seconds * 1000000;
}

abbrev or_user : Option Role → Role
or_user none = Role.user
or_user (some r) = r

-- `extract_role`: a missing or unknown claim is the least privileged role
abbrev pub extract_role : Option RoleClaim → Role
extract_role none = Role.user
extract_role (some (number n)) = or_user (role_of_value n)
extract_role (some other) = Role.user

-- `extract_grade` and `extract_sid`
abbrev pub extract_grade : Payload → Option ℕ
extract_grade p = p.grade

abbrev pub extract_sid : Payload → Option String
extract_sid p = p.sid

-- What PyJWT gives back of signed claims.
abbrev pub payload_of : Claims → Payload
payload_of c = record {
  sub = some (decimal c.sub);
  type = some c.type;
  role = some (number c.role);
  grade = c.grade;
  sid = c.sid;
}
