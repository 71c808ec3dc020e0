-- ===== src/Plugins/Efa/Advertised.antt =====
-- What the EFA plugin reports, and that it allocates what it has reported.
use ocp_efa_operator.Prelude.{
  ℕ, ◌<◌, Bool, true, false, Option, none, some, List, [], ◌∷◌, ◌++◌, map, ◌≡◌, refl, ap, ◌∙◌,
  if◌then◌else◌, All,
}
use ocp_efa_operator.Plugins.Text.{Bytes, has_prefix, after_prefix, after_prefix-append}
use ocp_efa_operator.Plugins.Decimal.{pos, parse_int, format_int, cutoff}
use ocp_efa_operator.Plugins.Decimal.RoundTrip.{parse_int-format_int}
use ocp_efa_operator.Plugins.System.{Device, System, DeviceSpec, device_spec}
use ocp_efa_operator.Plugins.Ids.RoundTrip.{get_idx_from_device_id-get_device_id}
use ocp_efa_operator.Plugins.Server.{Plugin}
use ocp_efa_operator.Plugins.Efa.{
  uverbs, uverbs_file, device_id, device, add_device, devices_of, get_devices, allocate,
}
use ocp_efa_operator.Plugins.Efa.Allocation.{granted, allocate_lem}

-- the names that begin with uverbs
abbrev pub uverbs_names : List Bytes → List Bytes
uverbs_names [] = []
uverbs_names (name ∷ names) =
    let rest = uverbs_names names in if has_prefix name uverbs then name ∷ rest else rest

abbrev pub uverbs_name : ℕ → Bytes
uverbs_name n = uverbs ++ format_int (pos n)

module _ (sys : System) (dp : Plugin) (w : sys.World) where
  -- the devices of a list of names that all begin with uverbs
  abbrev devices_from : List Bytes → Option (List Device)
  devices_from [] = some []
  devices_from (name ∷ names) =
      add_device sys dp w (parse_int (after_prefix name uverbs)) (devices_from names)

  devices_of-uverbs_names :
      (names : List Bytes) → devices_of sys dp w names ≡ devices_from (uverbs_names names)
  unfolding devices_of
  devices_of-uverbs_names [] = refl
  devices_of-uverbs_names (name ∷ names) =
      rw (devices_of-uverbs_names names) (split (has_prefix name uverbs))
    where
      split :
          (b : Bool)
          → (if b
              then add_device sys dp w
                  (parse_int (after_prefix name uverbs))
                  (devices_from (uverbs_names names))
              else devices_from (uverbs_names names))
            ≡ devices_from (if b then name ∷ uverbs_names names else uverbs_names names)
      split true = refl
      split false = refl

  abbrev pub device_at : ℕ → Device
  device_at n = device sys dp w (pos n)

  -- the index fits into 32 bits
  abbrev pub IsIndex : ℕ → Type 0
  IsIndex n = n < cutoff

  -- the file of the index exists
  abbrev pub IsThere : ℕ → Type 0
  IsThere n = sys.stat (uverbs_file dp (pos n)) w ≡ true

  devices_from-uverbs_name :
      (ns : List ℕ) → All IsIndex ns → devices_from (map uverbs_name ns) ≡ some (map device_at ns)
  devices_from-uverbs_name [] all = refl
  devices_from-uverbs_name (n ∷ ns) (h, all) =
      rw (after_prefix-append uverbs (format_int (pos n)))
        (rw (parse_int-format_int (pos n) h) (rw (devices_from-uverbs_name ns all) refl))

  granted-device_at :
      (ns : List ℕ)
      → All IsIndex ns
      → All IsThere ns
      → granted sys dp w (map (λ n. device_id dp (pos n)) ns)
        ≡ map (λ n. device_spec (uverbs_file dp (pos n))) ns
  granted-device_at [] all there = refl
  granted-device_at (n ∷ ns) (h, all) (t, there) =
      rw (get_idx_from_device_id-get_device_id dp.kind.id_tag dp.host_name (pos n) h)
        (rw t (rw (granted-device_at ns all there) refl))

  ids_of_devices :
      (ns : List ℕ) → map (λ dev. dev.id) (map device_at ns) ≡ map (λ n. device_id dp (pos n)) ns
  unfolding device
  ids_of_devices [] = refl
  ids_of_devices (n ∷ ns) = ap (λ l. device_id dp (pos n) ∷ l) (ids_of_devices ns)

  allocate_all :
      (ids : List Bytes) (d : DeviceSpec) (ds : List DeviceSpec)
      → granted sys dp w ids ≡ d ∷ ds
      → allocate sys dp w (ids ∷ []) ≡ (some ((d ∷ ds) ∷ []), none)
  allocate_all ids d ds h = allocate_lem sys dp w (ids ∷ []) ∙ rw h refl

  -- Where the entries of the directory that begin with uverbs are those of at least one index, each
  -- index fits into 32 bits and the file of each exists: `GetDevices` reports one device for each
  -- index, in the order of the entries, and `Allocate` gives a container that asks for all of them
  -- the device files of all of them, without an error.
  pub get_devices-allocate :
      (names : List Bytes) (n : ℕ) (ns : List ℕ)
      → sys.read_dir dp.device_path w ≡ some names
      → uverbs_names names ≡ map uverbs_name (n ∷ ns)
      → All IsIndex (n ∷ ns)
      → All IsThere (n ∷ ns)
      → (get_devices sys dp w ≡ some (map device_at (n ∷ ns)))
        × (allocate sys dp w (map (λ dev. dev.id) (map device_at (n ∷ ns)) ∷ [])
            ≡ (some (map (λ i. device_spec (uverbs_file dp (pos i))) (n ∷ ns) ∷ []), none))
  unfolding get_devices
  get_devices-allocate names n ns entries uverbs_entries all there = (
    rw entries (
        rw (devices_of-uverbs_names names)
          (rw uverbs_entries (rw (devices_from-uverbs_name (n ∷ ns) all) refl))),
    allocate_all (map (λ dev. dev.id) (map device_at (n ∷ ns))) _ _
        (ap (granted sys dp w) (ids_of_devices (n ∷ ns)) ∙ granted-device_at (n ∷ ns) all there),
  )
