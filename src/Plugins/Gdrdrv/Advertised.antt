-- ===== src/Plugins/Gdrdrv/Advertised.antt =====
-- What the GDRCOPY plugin reports, and that it allocates what it has reported.
use ocp_efa_operator.Prelude.{
  ℕ, zero, suc, ◌+◌, ◌≤◌, true, none, some, List, [], ◌∷◌, ◌++◌, append_assoc, append-nil, ◌≡◌,
  refl, sym, ap, ◌∙◌, arith, All, length,
}
use ocp_efa_operator.Plugins.Text.{Bytes}
use ocp_efa_operator.Plugins.Decimal.{pos, cutoff}
use ocp_efa_operator.Plugins.System.{Device, System, device_spec}
use ocp_efa_operator.Plugins.Ids.RoundTrip.{get_idx_from_device_id-get_device_id}
use ocp_efa_operator.Plugins.Server.{Plugin}
use ocp_efa_operator.Plugins.Gdrdrv.{
  max_users, device_id, devices_from, get_devices, request_ids, request_containers, allocate,
}

-- the devices of this many indices from the first on
abbrev pub devices_at : Plugin → ℕ → ℕ → List Device
devices_at dp i zero = []
devices_at dp i (suc n) =
    record { id = device_id dp (pos i); topology = none } ∷ devices_at dp (i + 1) n

devices_from-devices_at :
    (dp : Plugin) (i n : ℕ) (devs : List Device)
    → devices_from dp i n devs ≡ devs ++ devices_at dp i n
unfolding devices_from
devices_from-devices_at dp i zero devs = sym (append-nil devs)
devices_from-devices_at dp i (suc n) devs =
    devices_from-devices_at dp (i + 1) n _ ∙ append_assoc devs _ _

length-devices_at : (dp : Plugin) (i n : ℕ) → length (devices_at dp i n) ≡ n
length-devices_at dp i zero = refl
length-devices_at dp i (suc n) = ap suc (length-devices_at dp (i + 1) n)

module _ (sys : System) (dp : Plugin) (w : sys.World) where
  -- a container that asks for the device first gets the device file, whatever else it asks for
  abbrev pub IsAllocatable : Device → Type 0
  IsAllocatable dev =
      (ids : List Bytes)
      → allocate sys dp w ((dev.id ∷ ids) ∷ [])
        ≡ (some ((device_spec dp.device_path ∷ []) ∷ []), none)

  devices_at-IsAllocatable :
      (i n : ℕ)
      → sys.stat dp.device_path w ≡ true
      → i + n ≤ cutoff
      → All IsAllocatable (devices_at dp i n)
  unfolding allocate request_containers request_ids
  devices_at-IsAllocatable i zero there h = tt
  devices_at-IsAllocatable i (suc n) there h = (
    λ ids. rw there (
        rw (get_idx_from_device_id-get_device_id dp.kind.id_tag dp.host_name (pos i) (omega arith))
          refl),
    devices_at-IsAllocatable (i + 1) n there (omega arith),
  )

  -- Where the device file exists: `GetDevices` reports 128 devices, the ids of the indices from 0 on,
  -- and `Allocate` gives a container that asks for any of them, and for whatever else behind it, the
  -- device file once, without an error.
  pub get_devices-IsAllocatable :
      sys.stat dp.device_path w ≡ true
      → (get_devices sys dp w ≡ some (devices_at dp 0 max_users))
        × (length (devices_at dp 0 max_users) ≡ 128)
        × All IsAllocatable (devices_at dp 0 max_users)
  unfolding get_devices
  get_devices-IsAllocatable there = (
    rw there (ap some (devices_from-devices_at dp 0 max_users [])),
    length-devices_at dp 0 max_users,
    devices_at-IsAllocatable 0 max_users there (omega arith),
  )
