-- ===== src/Measure/Rates/Topics.antt =====
-- The topics of the data rates.
use mathlib.Core.Path.{subst}
use telemd.Base.{
  true, ℕ, ◌+◌, ◌≡◌, refl, Option, none, some, List, [], ◌∷◌, ◌++◌, Text, codes, All, All-append,
  get_elem?, >>=-eq-some, some-inj,
}
use telemd.Base.Int.{ℤ}
use telemd.Go.Float.{Floats}
use telemd.Host.{Host, Moment, next, child}
use telemd.Fileio.{read_line_and_parse_int}
use telemd.Telem.{topic_separator}
use telemd.Sysparse.{read_block_device_stats}
use telemd.Measure.{Put}
use telemd.Measure.Topics.{AllTopics, Topics, some-Topics, Topics-AllTopics, bind-Topics}
use telemd.Measure.Rates.{
  Goroutine, Report, all_puts, good, rx_path, tx_path, network_puts, network_reads,
  network_goroutine, network_goroutines, measure_network_data_rate, disk_puts, disk_reads,
  disk_goroutines, measure_disk_data_rate, wait_for,
}

-- A topic of each device.
abbrev pub OfDevice : (Text → Type 0) → Text → Type 0
OfDevice P metric = (device : Text) → P (metric ++ (topic_separator ++ device))

module _ (F : Floats) (P : Text → Type 0) where
  -- The goroutines of a measurement, each with such topics.
  AllGoroutines : List (Goroutine F) → Type 0
  AllGoroutines = All (λ g. AllTopics F P g.puts)

  all_puts-AllTopics : (gs : List (Goroutine F)) → AllGoroutines gs → AllTopics F P (all_puts F gs)
  unfolding all_puts AllGoroutines
  all_puts-AllTopics [] h = tt
  all_puts-AllTopics (g ∷ gs) (h, hs) =
      All-append (λ p. P p.0) g.puts (all_puts F gs) h (all_puts-AllTopics gs hs)

module _ (F : Floats) (P : Text → Type 0) (H : Host) where
  network_goroutine-AllTopics :
      (o : Option (List (Put F))) → Topics F P o → AllTopics F P (network_goroutine F H o).puts
  unfolding network_goroutine
  network_goroutine-AllTopics none h = tt
  network_goroutine-AllTopics (some puts) h = Topics-AllTopics F P refl h

  network_reads-Topics :
      (m : Moment) (device : Text)
      → OfDevice P (codes "tx")
      → OfDevice P (codes "rx")
      → Topics F P (network_reads F H m device)
  unfolding network_reads network_puts
  network_reads-Topics m device tx rx =
      bind-Topics F P (good (read_line_and_parse_int H m (rx_path F H device))) _ λ rx_then.
        bind-Topics F P (good (read_line_and_parse_int H (next m) (tx_path F H device))) _
          λ tx_then.
            bind-Topics F P (good (read_line_and_parse_int H (next (next m)) (rx_path F H device)))
              _
              λ rx_now.
                bind-Topics F P
                  (good (read_line_and_parse_int H (next (next (next m))) (tx_path F H device))) _
                  λ tx_now. some-Topics F P _ (tx device, (rx device, tt))

  network_goroutines-AllGoroutines :
      (m : Moment) (i : ℕ) (devices : List Text)
      → OfDevice P (codes "tx")
      → OfDevice P (codes "rx")
      → AllGoroutines F P (network_goroutines F H m i devices)
  unfolding network_goroutines AllGoroutines
  network_goroutines-AllGoroutines m i [] tx rx = tt
  network_goroutines-AllGoroutines m i (device ∷ devices) tx rx = (
    network_goroutine-AllTopics (network_reads F H (child i m) device)
        (network_reads-Topics (child i m) device tx rx),
    network_goroutines-AllGoroutines m (i + 1) devices tx rx,
  )

  pub measure_network_data_rate-AllTopics :
      (m : Moment) (devices : List Text)
      → OfDevice P (codes "tx")
      → OfDevice P (codes "rx")
      → AllTopics F P (all_puts F (measure_network_data_rate F H m devices).goroutines)
  unfolding measure_network_data_rate wait_for
  measure_network_data_rate-AllTopics m devices tx rx =
      all_puts-AllTopics F P _ (network_goroutines-AllGoroutines m 0 devices tx rx)

  cons_goroutine :
      (g : Goroutine F) (gs : List (Goroutine F))
      → AllTopics F P g.puts
      → AllGoroutines F P gs
      → AllGoroutines F P (g ∷ gs)
  unfolding AllGoroutines
  cons_goroutine g gs h hs = (h, hs)

  disk_reads-Topics :
      (device : Text) (o o' : Option (List ℤ))
      → OfDevice P (codes "rd")
      → OfDevice P (codes "wr")
      → Topics F P (disk_reads F H device o o')
  unfolding disk_reads disk_puts
  disk_reads-Topics device none o' rd wr = some-Topics F P _ tt
  disk_reads-Topics device (some s) none rd wr = some-Topics F P _ tt
  disk_reads-Topics device (some s) (some s') rd wr = bind-Topics F P (get_elem? s 2) _ λ a.
      bind-Topics F P (get_elem? s' 2) _ λ b.
        bind-Topics F P (get_elem? s 6) _ λ c.
          bind-Topics F P (get_elem? s' 6) _ λ d. some-Topics F P _ (rd device, (wr device, tt))

  disk_goroutines-AllGoroutines :
      (m : Moment) (i : ℕ) (devices : List Text) {gs : List (Goroutine F)}
      → OfDevice P (codes "rd")
      → OfDevice P (codes "wr")
      → disk_goroutines F H m i devices ≡ some gs
      → AllGoroutines F P gs
  unfolding disk_goroutines
  disk_goroutines-AllGoroutines m i [] rd wr h =
      subst (AllGoroutines F P) (some-inj h) (unfold AllGoroutines in tt)
  disk_goroutines-AllGoroutines m i (device ∷ devices) rd wr h =
      let o = good (read_block_device_stats H (child i m) device) in
      let o' = good (read_block_device_stats H (next (child i m)) device) in
      let (puts, e, h') = >>=-eq-some (disk_reads F H device o o') _ h in
      let (gs, e', h'') = >>=-eq-some (disk_goroutines F H m (i + 1) devices) _ h' in
      subst (AllGoroutines F P) (some-inj h'') (
        cons_goroutine (record { puts = puts; is_done = true }) gs
          (Topics-AllTopics F P e (disk_reads-Topics device o o' rd wr))
          (disk_goroutines-AllGoroutines m (i + 1) devices rd wr e'))

  pub measure_disk_data_rate-AllTopics :
      (m : Moment) (devices : List Text) {r : Report F}
      → OfDevice P (codes "rd")
      → OfDevice P (codes "wr")
      → measure_disk_data_rate F H m devices ≡ some r
      → AllTopics F P (all_puts F r.goroutines)
  unfolding measure_disk_data_rate wait_for
  measure_disk_data_rate-AllTopics m devices rd wr h =
      let (gs, e, h') = >>=-eq-some (disk_goroutines F H m 0 devices) _ h in
      subst (λ r. AllTopics F P (all_puts F r.goroutines)) (some-inj h')
        (all_puts-AllTopics F P gs (disk_goroutines-AllGoroutines m 0 devices rd wr e))
