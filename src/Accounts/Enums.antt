-- ===== src/Accounts/Enums.antt =====
-- app/core/enums.py: the enumerations of accounts. An IntEnum is a data type with its `value`.
use stream_sight_backend.Prelude.{ℕ, Bool, true, false, Option, none, some, ◌==◌, if◌then◌else◌}

pub data Role : Type 0 where
  user admin : Role

abbrev pub role_value : Role → ℕ
role_value Role.user = 0
role_value Role.admin = 1

-- `Role(n)`, which raises ValueError out of the domain
abbrev pub role_of_value : ℕ → Option Role
role_of_value n = if n == 0 then some Role.user else if n == 1 then some Role.admin else none

abbrev pub is_user : Role → Bool
is_user Role.user = true
is_user Role.admin = false

pub data AdminRole : Type 0 where
  viewer editor super_admin root : AdminRole

-- The rank is the value.
abbrev pub admin_role_value : AdminRole → ℕ
admin_role_value viewer = 0
admin_role_value editor = 50
admin_role_value super_admin = 100
admin_role_value root = 999

abbrev pub is_root : AdminRole → Bool
is_root root = true
is_root _ = false

pub data UserTier : Type 0 where
  free premium : UserTier

abbrev pub user_tier_value : UserTier → ℕ
user_tier_value free = 0
user_tier_value premium = 5

pub data AdminStatusFilter : Type 0 where
  active archived deleted all : AdminStatusFilter
