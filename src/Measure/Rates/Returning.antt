-- ===== src/Measure/Rates/Returning.antt =====
-- When the measurement of the network rates returns, and the counter of a wait group.
use telemd.Base.{
  ℕ, ◌+◌, ◌==◌, length, if◌then◌else◌, Bool, true, false, ◌&&◌, none, some, List, [], ◌∷◌, suc,
  Text, ◌>>=◌, ◌≡◌, refl, sym, ap, suc, arith,
}
use telemd.Base.Int.{ℤ}
use telemd.Go.Float.{Floats}
use telemd.Go.Strconv.{WithErr}
use telemd.Host.{Host, Moment, next, child}
use telemd.Fileio.{read_line_and_parse_int}
use telemd.Measure.{Put}
use telemd.Measure.Rates.{
  good, Goroutine, counter, rx_path, tx_path, network_reads, network_goroutine, network_goroutines,
  network_puts, wait_for, measure_network_data_rate,
}

abbrev pub is_good {ℓ} : {A : Type ℓ} → WithErr A → Bool
is_good (_, none) = true
is_good (_, some _) = false

unfoldable pub undone : {F : Floats} → List (Goroutine F) → ℕ
undone [] = 0
undone (g ∷ gs) = if g.is_done then undone gs else undone gs + 1

counter-undone :
    {F : Floats} (gs : List (Goroutine F)) (k : ℕ) → counter F gs (k + length gs) ≡ k + undone gs
unfolding counter undone
counter-undone [] k = ground arith
counter-undone (g ∷ gs) k = ground (arith, counter-undone gs k, counter-undone gs (k + 1))

pub counter_all : {F : Floats} (gs : List (Goroutine F)) → counter F gs (length gs) ≡ undone gs
counter_all gs = ground (arith, counter-undone gs 0)

module _ (F : Floats) (H : Host) where
  -- Both files of a device can be read as numbers, twice.
  abbrev pub readable : Moment → Text → Bool
  readable m device =
      is_good (read_line_and_parse_int H m (rx_path F H device))
      && is_good (read_line_and_parse_int H (next m) (tx_path F H device))
      && is_good (read_line_and_parse_int H (next (next m)) (rx_path F H device))
      && is_good (read_line_and_parse_int H (next (next (next m))) (tx_path F H device))

  pub all_readable : Moment → ℕ → List Text → Bool
  all_readable m i [] = true
  all_readable m i (device ∷ devices) =
      readable (child i m) device && all_readable m (i + 1) devices

  four_reads :
      (a b c d : WithErr ℤ) (f : ℤ → ℤ → ℤ → ℤ → List (Put F))
      → (network_goroutine F H (
          good a >>= λ v. good b >>= λ w. good c >>= λ x. good d >>= λ y. some (f v w x y))).is_done
        ≡ is_good a && is_good b && is_good c && is_good d
  unfolding network_goroutine
  four_reads (a, some e) b c d f = refl
  four_reads (a, none) (b, some e) c d f = refl
  four_reads (a, none) (b, none) (c, some e) d f = refl
  four_reads (a, none) (b, none) (c, none) (d, some e) f = refl
  four_reads (a, none) (b, none) (c, none) (d, none) f = refl

  network_goroutine-readable :
      (m : Moment) (device : Text)
      → (network_goroutine F H (network_reads F H m device)).is_done ≡ readable m device
  unfolding network_reads
  network_goroutine-readable m device =
      four_reads (read_line_and_parse_int H m (rx_path F H device))
        (read_line_and_parse_int H (next m) (tx_path F H device))
        (read_line_and_parse_int H (next (next m)) (rx_path F H device))
        (read_line_and_parse_int H (next (next (next m))) (tx_path F H device))
        (network_puts F H device)

  undone-all_readable :
      (m : Moment) (i : ℕ) (devices : List Text)
      → (undone (network_goroutines F H m i devices) == 0) ≡ all_readable m i devices
  unfolding undone network_goroutines all_readable
  undone-all_readable m i [] = refl
  undone-all_readable m i (device ∷ devices) =
      ground (
        arith,
        network_goroutine-readable (child i m) device,
        undone-all_readable m (i + 1) devices,
      )

  length-network_goroutines :
      (m : Moment) (i : ℕ) (devices : List Text)
      → length (network_goroutines F H m i devices) ≡ length devices
  unfolding network_goroutines
  length-network_goroutines m i [] = refl
  length-network_goroutines m i (device ∷ devices) =
      ap suc (length-network_goroutines m (i + 1) devices)

  -- `MeasureAndReport` of the network rates returns exactly if all four reads of every device
  -- succeed: one device whose counters cannot be read makes it wait for ever.
  pub measure_network_data_rate-all_readable :
      (m : Moment) (devices : List Text)
      → (measure_network_data_rate F H m devices).returns ≡ all_readable m 0 devices
  unfolding measure_network_data_rate wait_for
  measure_network_data_rate-all_readable m devices =
      rw
        (
          sym (length-network_goroutines m 0 devices),
          counter_all (network_goroutines F H m 0 devices),
        )
        (undone-all_readable m 0 devices)
