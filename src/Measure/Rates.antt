-- ===== src/Measure/Rates.antt =====
-- internal/telemd/instrument.go: the data rates of networks and disks, one goroutine a device,
-- and the wait group that `MeasureAndReport` waits for before it returns.
pub mod Returning
pub mod Disks
pub mod Topics
use telemd.Base.{
  ℕ, ◌+◌, ◌-◌, ◌==◌, length, if◌then◌else◌, Bool, true, false, ◌&&◌, Option, none, some, List, [],
  ◌∷◌, ◌++◌, Text, codes, ◌>>=◌, get_elem?, ◌≡◌, refl, ◌⊎◌, inl, inr, All, arith, Option-cases,
}
use telemd.Base.Int.{ℤ, sub64, mul64, ◌/ℤ◌, pos}
use telemd.Go.Float.{Floats}
use telemd.Go.Strconv.{WithErr}
use telemd.Host.{Host, Moment, next, child}
use telemd.Fileio.{read_line_and_parse_int}
use telemd.Telem.{topic_separator}
use telemd.Sysparse.{read_block_device_stats}
use telemd.Measure.{Put}

-- The value of a read without an error.
abbrev pub good {ℓ} : {A : Type ℓ} → WithErr A → Option A
good (v, none) = some v
good (v, some err) = none

module _ (F : Floats) where
  -- A goroutine that has ended: what it put, and whether it has called `wg.Done`.
  pub record Goroutine : Type 0 where
    pub puts : List (Put F)
    pub is_done : Bool

  -- The counter of a wait group, once its goroutines have ended.
  pub counter : List Goroutine → ℕ → ℕ
  counter [] n = n
  counter (g ∷ gs) n = counter gs (if g.is_done then n - 1 else n)

  -- What the goroutines put, one after the other.
  pub all_puts : List Goroutine → List (Put F)
  all_puts [] = []
  all_puts (g ∷ gs) = g.puts ++ all_puts gs

  -- The goroutines, and whether `wg.Wait` returns.
  pub record Report : Type 0 where
    pub goroutines : List Goroutine
    pub returns : Bool

  -- `wg.Add(len(devices))` and the wait for the goroutines.
  pub wait_for : List Text → List Goroutine → Report
  unfolding counter
  wait_for devices gs = record { goroutines = gs; returns = counter gs (length devices) == 0 }

module _ (F : Floats) (H : Host) where
  abbrev pub rx_path : Text → Text
  rx_path device = codes "/sys/class/net/" ++ (device ++ codes "/statistics/rx_bytes")

  abbrev pub tx_path : Text → Text
  tx_path device = codes "/sys/class/net/" ++ (device ++ codes "/statistics/tx_bytes")

  pub network_puts : Text → ℤ → ℤ → ℤ → ℤ → List (Put F)
  network_puts device rx_then tx_then rx_now tx_now =
      (codes "tx" ++ (topic_separator ++ device), F.of_int (sub64 tx_now tx_then /ℤ 1000))
      ∷ (codes "rx" ++ (topic_separator ++ device), F.of_int (sub64 rx_now rx_then /ℤ 1000))
      ∷ []

  -- The four reads with their early returns; `none` is a return.
  pub network_reads : Moment → Text → Option (List (Put F))
  unfolding network_puts
  network_reads m device = do
    rx_then ← good (read_line_and_parse_int H m (rx_path device))
    tx_then ← good (read_line_and_parse_int H (next m) (tx_path device))
    rx_now ← good (read_line_and_parse_int H (next (next m)) (rx_path device))
    tx_now ← good (read_line_and_parse_int H (next (next (next m))) (tx_path device))
    some (network_puts device rx_then tx_then rx_now tx_now)

  -- `wg.Done` is the last statement, which an early return does not reach.
  pub network_goroutine : Option (List (Put F)) → Goroutine F
  network_goroutine none = record { puts = []; is_done = false }
  network_goroutine (some puts) = record { puts = puts; is_done = true }

  pub network_goroutines : Moment → ℕ → List Text → List (Goroutine F)
  unfolding network_goroutine network_reads
  network_goroutines m i [] = []
  network_goroutines m i (device ∷ devices) =
      network_goroutine (network_reads (child i m) device) ∷ network_goroutines m (i + 1) devices

  unfoldable pub measure_network_data_rate : Moment → List Text → Report F
  unfolding network_goroutines wait_for
  measure_network_data_rate m devices = wait_for F devices (network_goroutines m 0 devices)

  abbrev pub sector_size : ℤ
  sector_size = pos 512

  -- The rates of the columns 2 and 6; `none` is the panic of a missing column.
  pub disk_puts : Text → List ℤ → List ℤ → Option (List (Put F))
  disk_puts device stats_then stats_now = do
    rd ← get_elem? stats_then 2
    rd' ← get_elem? stats_now 2
    wr ← get_elem? stats_then 6
    wr' ← get_elem? stats_now 6
    some (
        (
          codes "rd" ++ (topic_separator ++ device),
          F.div (F.of_int (mul64 (sub64 rd' rd) sector_size)) (F.of_int (pos 1000)),
        )
        ∷ (
          codes "wr" ++ (topic_separator ++ device),
          F.div (F.of_int (mul64 (sub64 wr' wr) sector_size)) (F.of_int (pos 1000)),
        )
        ∷ [])

  -- The two reads with their early returns; the deferred `wg.Done` runs behind each of them.
  pub disk_reads : Text → Option (List ℤ) → Option (List ℤ) → Option (List (Put F))
  unfolding disk_puts
  disk_reads device none _ = some []
  disk_reads device (some stats_then) none = some []
  disk_reads device (some stats_then) (some stats_now) = disk_puts device stats_then stats_now

  pub disk_goroutines : Moment → ℕ → List Text → Option (List (Goroutine F))
  unfolding disk_reads
  disk_goroutines m i [] = some []
  disk_goroutines m i (device ∷ devices) = do
    puts ←
        disk_reads device (good (read_block_device_stats H (child i m) device))
          (good (read_block_device_stats H (next (child i m)) device))
    gs ← disk_goroutines m (i + 1) devices
    some (record { puts = puts; is_done = true } ∷ gs)

  pub measure_disk_data_rate : Moment → List Text → Option (Report F)
  unfolding disk_goroutines wait_for
  measure_disk_data_rate m devices = do
    gs ← disk_goroutines m 0 devices
    some (wait_for F devices gs)
