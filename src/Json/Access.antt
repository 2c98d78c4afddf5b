-- ===== src/Json/Access.antt =====
-- The reading of a `serde_json::Value` by key.
use Prim.Native.String.{String}
use hiero_streams_rs.Prelude.{ℕ, ◌^◌, Bool, Option, none, some, ltb, bytes_eq, if◌then◌else◌}
use hiero_streams_rs.Prelude.Int.{ℤ, pos, negsuc}
use hiero_streams_rs.Text.{Text, codes}
use hiero_streams_rs.Json.{
  Json, text, number, boolean, array, object, null, Members, no_members, member,
}

-- `v[key]`, which is null where the value is no object or has no such member.
unfoldable pub member_of : Text → Members → Json
member_of key no_members = null
member_of key (member k x rest) =
    let other = member_of key rest in if bytes_eq key (codes k) then x else other

unfoldable pub index : Json → String → Json
index (object fs) key = member_of (codes key) fs
index (text t) key = null
index (number n) key = null
index (boolean b) key = null
index null key = null
index (array xs) key = null

unfoldable pub as_str : Json → Option Text
as_str (text t) = some t
as_str (object fs) = none
as_str (number n) = none
as_str (boolean b) = none
as_str null = none
as_str (array xs) = none

unfoldable pub as_bool : Json → Option Bool
as_bool (boolean b) = some b
as_bool (text t) = none
as_bool (object fs) = none
as_bool (number n) = none
as_bool null = none
as_bool (array xs) = none

-- A number of a `u64`.
unfoldable pub u64_of : ℤ → Option ℕ
u64_of (pos n) = if ltb n (2 ^ 64) then some n else none
u64_of (negsuc n) = none

unfoldable pub as_u64 : Json → Option ℕ
as_u64 (number n) = u64_of n
as_u64 (text t) = none
as_u64 (object fs) = none
as_u64 (boolean b) = none
as_u64 null = none
as_u64 (array xs) = none
