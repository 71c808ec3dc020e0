-- ===== src/Plugins/Ids/RoundTrip.antt =====
-- An id gives its index back.
use ocp_efa_operator.Prelude.{◌≡◌, refl}
use ocp_efa_operator.Plugins.Text.{Bytes, has_prefix-append, after_prefix-append}
use ocp_efa_operator.Plugins.Decimal.{ℤ, format_int}
use ocp_efa_operator.Plugins.Decimal.RoundTrip.{IsInt32, parse_int-format_int}
use ocp_efa_operator.Plugins.Ids.{id_prefix, get_device_id, get_idx_from_device_id}

-- On a host, the index of the id that was made from an index of 32 bits is that index.
pub get_idx_from_device_id-get_device_id :
    (tag host_name : Bytes) (idx : ℤ)
    → IsInt32 idx
    → get_idx_from_device_id tag host_name (get_device_id tag host_name idx) ≡ idx
unfolding get_idx_from_device_id get_device_id
get_idx_from_device_id-get_device_id tag host_name idx h =
    rw
      (
        has_prefix-append (id_prefix tag host_name) (format_int idx),
        after_prefix-append (id_prefix tag host_name) (format_int idx),
      )
      (rw (parse_int-format_int idx h) refl)
