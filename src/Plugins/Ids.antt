-- ===== src/Plugins/Ids.antt =====
-- `GetDeviceId` and `GetIdxFromDeviceId` of the two plugins, which differ in the text that the ids
-- begin with.
pub mod RoundTrip
use ocp_efa_operator.Prelude.{ℕ, zero, Bool, true, false, Option, none, some, ◌++◌, if◌then◌else◌}
use ocp_efa_operator.Plugins.Text.{Bytes, codes, has_prefix, after_prefix}
use ocp_efa_operator.Plugins.Decimal.{ℤ, negsuc, parse_int, format_int}

abbrev pub id_prefix : Bytes → Bytes → Bytes
id_prefix tag host_name = tag ++ host_name ++ codes "-"

unfoldable pub get_device_id : Bytes → Bytes → ℤ → Bytes
get_device_id tag host_name idx = id_prefix tag host_name ++ format_int idx

abbrev or_minus_one : Option ℤ → ℤ
or_minus_one none = negsuc 0
or_minus_one (some idx) = idx

unfoldable pub get_idx_from_device_id : Bytes → Bytes → Bytes → ℤ
get_idx_from_device_id tag host_name id =
    if has_prefix id (id_prefix tag host_name)
    then or_minus_one (parse_int (after_prefix id (id_prefix tag host_name)))
    else negsuc 0

-- `idx == -1`
abbrev pub is_minus_one : ℤ → Bool
is_minus_one (negsuc zero) = true
is_minus_one _ = false
