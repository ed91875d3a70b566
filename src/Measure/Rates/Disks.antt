-- ===== src/Measure/Rates/Disks.antt =====
-- What the measurement of the disk rates puts.
use telemd.Base.{
  ℕ, ◌+◌, ◌==◌, length, if◌then◌else◌, Bool, true, false, ◌&&◌, none, some, List, [], ◌∷◌, ◌++◌,
  zero, suc, codes, Text, get_elem?, ◌≡◌, refl, sym, ap, suc, arith, ◌≤◌,
}
use telemd.Base.Int.{ℤ, pos, sub64, mul64}
use telemd.Cfg.{or_keep}
use telemd.Go.Float.{Floats}
use telemd.Go.Strconv.{WithErr}
use telemd.Host.{Host, Moment, next, child}
use telemd.Sysparse.{read_block_device_stats}
use telemd.Measure.{Put}
use telemd.Telem.{topic_separator}
use telemd.Measure.Rates.{
  good, Goroutine, Report, counter, wait_for, disk_reads, disk_puts, disk_goroutines,
  measure_disk_data_rate,
}
use telemd.Measure.Rates.Returning.{is_good, undone, counter_all}

append_if {ℓ} :
    {A : Type ℓ} (b : Bool) (xs ys : List A)
    → (if b then xs else []) ++ ys ≡ (if b then xs ++ ys else ys)
append_if true xs ys = refl
append_if false xs ys = refl

-- Everything that was put.
pub puts_of : {F : Floats} → List (Goroutine F) → List (Put F)
puts_of [] = []
puts_of (g ∷ gs) = g.puts ++ puts_of gs

-- A number of the statistics, by its column.
pub column : ℕ → List ℤ → ℤ
column i stats = or_keep (get_elem? stats i) (pos 0)

module _ (F : Floats) (H : Host) where
  -- The columns 2 and 6 are there.
  abbrev pub HasColumns : WithErr (List ℤ) → Type 0
  HasColumns (stats, none) = 7 ≤ length stats
  HasColumns (stats, some err) = Unit

  -- The same of both reads of every device.
  unfoldable pub AllHaveColumns : Moment → ℕ → List Text → Type 0
  AllHaveColumns m i [] = Unit
  AllHaveColumns m i (device ∷ devices) =
      HasColumns (read_block_device_stats H (child i m) device)
      × HasColumns (read_block_device_stats H (next (child i m)) device)
      × AllHaveColumns m (i + 1) devices

  -- Kilobytes between two numbers of sectors, with the wrap-around of an int64.
  abbrev pub kilobytes : ℤ → ℤ → F.Float
  kilobytes before now = F.div (F.of_int (mul64 (sub64 now before) (pos 512))) (F.of_int (pos 1000))

  -- What was read and written between two statistics of a device.
  abbrev pub two_rates : Text → List ℤ → List ℤ → List (Put F)
  two_rates device before now =
      (codes "rd" ++ (topic_separator ++ device), kilobytes (column 2 before) (column 2 now))
      ∷ (codes "wr" ++ (topic_separator ++ device), kilobytes (column 6 before) (column 6 now))
      ∷ []

  abbrev pub both_good : Moment → ℕ → Text → Bool
  both_good m i device =
      is_good (read_block_device_stats H (child i m) device)
      && is_good (read_block_device_stats H (next (child i m)) device)

  -- Two rates for each device that could be read twice.
  pub readable_puts : Moment → ℕ → List Text → List (Put F)
  readable_puts m i [] = []
  readable_puts m i (device ∷ devices) =
      if both_good m i device
      then two_rates device (read_block_device_stats H (child i m) device).0
          (read_block_device_stats H (next (child i m)) device).0
        ++ readable_puts m (i + 1) devices
      else readable_puts m (i + 1) devices

  get_elem?_below :
      (stats : List ℤ) (i : ℕ) → suc i ≤ length stats → (v : ℤ) × (get_elem? stats i ≡ some v)
  get_elem?_below [] i h = grind arith
  get_elem?_below (v ∷ stats) zero h = (v, refl)
  get_elem?_below (v ∷ stats) (suc i) h = get_elem?_below stats i (omega arith)

  disk_puts-two_rates :
      (device : Text) (a b : List ℤ)
      → 7 ≤ length a
      → 7 ≤ length b
      → disk_puts F H device a b ≡ some (two_rates device a b)
  unfolding disk_puts column
  disk_puts-two_rates device a b h h' =
      let (rd, e) = get_elem?_below a 2 (omega arith) in
      let (rd', e') = get_elem?_below b 2 (omega arith) in
      let (wr, f) = get_elem?_below a 6 (omega arith) in
      let (wr', f') = get_elem?_below b 6 (omega arith) in rw (e, e', f, f') refl

  disk_reads-two_rates :
      (device : Text) (a b : WithErr (List ℤ))
      → HasColumns a
      → HasColumns b
      → disk_reads F H device (good a) (good b)
        ≡ some (if is_good a && is_good b then two_rates device a.0 b.0 else [])
  unfolding disk_reads
  disk_reads-two_rates device (a, some e) b h h' = refl
  disk_reads-two_rates device (a, none) (b, some e) h h' = refl
  disk_reads-two_rates device (a, none) (b, none) h h' = disk_puts-two_rates device a b h h'

  disk_goroutines-readable_puts :
      (m : Moment) (i : ℕ) (devices : List Text)
      → AllHaveColumns m i devices
      → (gs : List (Goroutine F)) × (disk_goroutines F H m i devices ≡ some gs)
        × (undone gs ≡ 0)
        × (length gs ≡ length devices)
        × (puts_of gs ≡ readable_puts m i devices)
  unfolding disk_goroutines undone puts_of readable_puts AllHaveColumns
  disk_goroutines-readable_puts m i [] h = ([], refl, refl, refl, refl)
  disk_goroutines-readable_puts m i (device ∷ devices) (h, h', hs) =
      let before = read_block_device_stats H (child i m) device in
      let now = read_block_device_stats H (next (child i m)) device in
      let e = disk_reads-two_rates device before now h h' in
      let (gs, e', u, l, t) = disk_goroutines-readable_puts m (i + 1) devices hs in
      (
        record {
          puts = if both_good m i device then two_rates device before.0 now.0 else [];
          is_done = true;
        }
            ∷ gs,
        rw (e, e') refl,
        u,
        ap suc l,
        rw t (
            append_if (both_good m i device) (two_rates device before.0 now.0)
              (readable_puts m (i + 1) devices)),
      )

  pub measure_disk_data_rate-readable_puts :
      (m : Moment) (devices : List Text)
      → AllHaveColumns m 0 devices
      → (r : Report F) × (measure_disk_data_rate F H m devices ≡ some r)
        × (r.returns ≡ true)
        × (puts_of r.goroutines ≡ readable_puts m 0 devices)
  unfolding measure_disk_data_rate wait_for
  measure_disk_data_rate-readable_puts m devices h =
      let (gs, e, u, l, t) = disk_goroutines-readable_puts m 0 devices h in
      (
        record { goroutines = gs; returns = counter F gs (length devices) == 0 },
        rw e refl,
        rw (sym l, counter_all gs, u) refl,
        t,
      )
