-- ===== src/Remote/Devices.antt =====
-- remote/remote_api_wrapper.c: which device the next thread gets.
pub mod Balance
use gpu_virtmem.Prelude.{
  ℕ, zero, suc, ◌+◌, ◌*◌, ◌%◌, Option, none, some, ◌>>=◌, List, ◌==◌, if◌then◌else◌, get_elem?, set,
  ℤ, pos, ◌+ℤ◌, ltb_ℤ, ltb, ◌-◌,
}

pub get_gpu_index : ℕ → ℕ → ℕ
get_gpu_index node devid = 2 * node + devid

-- `get_next_device_RR` with `BACKEND_DEVICES` and `DEV_RR`: the device, and the new `DEV_RR`. A
-- division by zero is `none`.
unfoldable pub get_next_device_rr : ℕ → ℕ → Option (ℕ × ℕ)
get_next_device_rr devices dev_rr =
    if devices == 0 then none else some (dev_rr, (dev_rr + 1) % devices)

-- The loop of `get_next_device` from device `i` on; `counts` is `thread_count_per_device`.
pub min_from : ℕ → ℕ → ℕ → List ℤ → Option ℕ
min_from zero i min counts = some min
min_from (suc n) i min counts = get_elem? counts i >>= (λ a.
    get_elem? counts min >>= (λ b. min_from n (i + 1) (if ltb_ℤ a b then i else min) counts))

-- `thread_count_per_device[min]++`
count_up : ℕ → List ℤ → Option (List ℤ)
count_up min counts = get_elem? counts min >>= (λ c. some (set counts min (c +ℤ pos 1)))

-- `get_next_device`: the device, and the new counts.
pub get_next_device : ℕ → List ℤ → Option (ℕ × List ℤ)
unfolding min_from count_up
get_next_device devices counts =
    min_from devices 0 0 counts
    >>= (λ min. count_up min counts >>= (λ counted. some (min, counted)))

-- The loop of `get_next_device_local_pref`, which begins at the device `i` and goes round.
pub min_round : ℕ → ℕ → ℕ → ℕ → List ℤ → Option ℕ
min_round devices zero i min counts = some min
min_round devices (suc n) i min counts = get_elem? counts i >>= (λ a. get_elem? counts min >>= (λ b.
    min_round devices n (if ltb i (devices - 1) then i + 1 else 0) (if ltb_ℤ a b then i else min)
      counts))

-- `get_next_device_local_pref`
pub get_next_device_local_pref : ℕ → ℕ → List ℤ → Option (ℕ × List ℤ)
unfolding min_round count_up
get_next_device_local_pref devices localhost_id counts =
    min_round devices devices localhost_id localhost_id counts
    >>= (λ min. count_up min counts >>= (λ counted. some (min, counted)))
