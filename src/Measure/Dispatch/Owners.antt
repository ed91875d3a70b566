-- ===== src/Measure/Dispatch/Owners.antt =====
-- Which instrument a topic belongs to.
use mathlib.Core.Path.{subst}
use telemd.Base.{◌≡◌, refl, sym, Option, some, List, Text, codes, text_dec, map-eq-some, some-inj}
use telemd.Go.Float.{Floats}
use telemd.Host.{Host, Moment}
use telemd.Instrument.{
  Instrument, cpu_info_frequency, cpu_scaling_frequency, cpu_util, load, procs, ram, psi_cpu,
  psi_memory, psi_io, wifi_rx_bitrate, wifi_tx_bitrate, wifi_signal, network_data_rate,
  disk_data_rate, docker_cgroupv1_cpu, docker_cgroupv2_cpu, docker_cgroupv1_blkio,
  docker_cgroupv2_blkio, docker_cgroupv1_memory, docker_cgroupv2_memory, kubernetes_cgroupv1_cpu,
  kubernetes_cgroupv2_cpu, kubernetes_cgroupv1_blkio, kubernetes_cgroupv2_blkio,
  kubernetes_cgroupv1_memory, kubernetes_cgroupv2_memory, docker_cgroupv1_network,
  docker_cgroupv2_network, kubernetes_cgroupv1_network, kubernetes_cgroupv2_network,
}
use telemd.Measure.{Put}
use telemd.Measure.Topics.{AllTopics, Topics, Topics-AllTopics, some-Topics}
use telemd.Measure.Topics.Hosts.{
  measure_cpu_util-Topics, measure_cpu_info_frequency-Topics, measure_cpu_scaling_frequency-Topics,
  measure_load-Topics, measure_procs-Topics, measure_ram-Topics, measure_psi-Topics,
  measure_wifi-AllTopics,
}
use telemd.Measure.Rates.{all_puts, Report, measure_disk_data_rate}
use telemd.Measure.Rates.Topics.{
  measure_network_data_rate-AllTopics, measure_disk_data_rate-AllTopics,
}
use telemd.Measure.Containers.Topics.{
  measure_docker_cgroupv1_cpu-Topics, measure_docker_cgroupv2_cpu-Topics,
  measure_docker_cgroupv1_blkio-Topics, measure_docker_cgroupv2_blkio-Topics,
  measure_docker_cgroupv1_memory-Topics, measure_docker_cgroupv2_memory-Topics,
  measure_kubernetes_cgroupv1_cpu-Topics, measure_kubernetes_cgroupv2_cpu-Topics,
  measure_kubernetes_cgroupv1_blkio-Topics, measure_kubernetes_cgroupv2_blkio-Topics,
  measure_kubernetes_cgroupv1_memory-Topics, measure_kubernetes_cgroupv2_memory-Topics,
}
use telemd.Measure.Networks.{Turn}
use telemd.Measure.Networks.Topics.{
  TurnTopics, TurnTopics-AllTopics, measure_docker_cgroupv1_network-TurnTopics,
  measure_docker_cgroupv2_network-TurnTopics,
}
use telemd.Measure.Networks.Kubernetes.{Copy}
use telemd.Measure.Networks.Kubernetes.Topics.{
  measure_kubernetes_cgroupv1_network-TurnTopics, measure_kubernetes_cgroupv2_network-TurnTopics,
}
use telemd.Measure.Dispatch.Names.{metric_of, owner, name_of, BelongsTo}
use telemd.Measure.Dispatch.{Measured, plain, waiting, keeping, keeping_stored, measure_and_report}

-- The topics of a measurement belong to its instrument, which keeps its name.
abbrev pub IsOwn : {F : Floats} → Instrument → Measured F → Type 0
IsOwn {F} i r = AllTopics F (BelongsTo (name_of i)) r.puts × (name_of r.instrument ≡ name_of i)

module _ {F : Floats} where
  plain-IsOwn :
      (i : Instrument) (o : Option (List (Put F))) {r : Measured F}
      → Topics F (BelongsTo (name_of i)) o
      → plain i o ≡ some r
      → IsOwn i r
  unfolding plain
  plain-IsOwn i o h e =
      let (puts, e', e'') = map-eq-some _ o e in
      subst (IsOwn i) (sym e'') (Topics-AllTopics F _ e' h, refl)

  waiting-IsOwn :
      (i : Instrument) (report : Report F) {r : Measured F}
      → AllTopics F (BelongsTo (name_of i)) (all_puts F report.goroutines)
      → waiting i report ≡ r
      → IsOwn i r
  unfolding waiting
  waiting-IsOwn i report h e = subst (IsOwn i) e (h, refl)

  keeping-IsOwn :
      (i : Instrument) (again : Turn F → Instrument) (o : Option (Turn F)) {r : Measured F}
      → TurnTopics F (BelongsTo (name_of i)) o
      → ((t : Turn F) → name_of (again t) ≡ name_of i)
      → keeping again o ≡ some r
      → IsOwn i r
  unfolding keeping
  keeping-IsOwn i again o h same e =
      let (turn, e', e'') = map-eq-some _ o e in
      subst (IsOwn i) (sym e'') (TurnTopics-AllTopics F _ e' h, same turn)

  keeping_stored-IsOwn :
      (i : Instrument) (again : Copy → Instrument) (o : Option (Copy × List (Put F)))
      {r : Measured F}
      → TurnTopics F (BelongsTo (name_of i)) o
      → ((c : Copy) → name_of (again c) ≡ name_of i)
      → keeping_stored again o ≡ some r
      → IsOwn i r
  unfolding keeping_stored
  keeping_stored-IsOwn i again o h same e =
      let (turn, e', e'') = map-eq-some _ o e in
      subst (IsOwn i) (sym e'') (TurnTopics-AllTopics F _ e' h, same turn.0)

module _ (F : Floats) (H : Host) (files : List Text) (order : List Text → List Text)
    (m : Moment) where
  -- Whatever the host answers, each telemetry of a measurement that does not end the program has a
  -- topic of the instrument that was asked, and the instrument keeps its name.
  pub measure_and_report-IsOwn :
      (i : Instrument) {r : Measured F}
      → measure_and_report F H files order m i ≡ some r
      → IsOwn i r
  unfolding measure_and_report name_of owner metric_of text_dec
  measure_and_report-IsOwn cpu_info_frequency e =
      plain-IsOwn _ _ (measure_cpu_info_frequency-Topics F _ H m refl) e
  measure_and_report-IsOwn cpu_scaling_frequency e =
      plain-IsOwn _ _ (measure_cpu_scaling_frequency-Topics F _ H m files refl) e
  measure_and_report-IsOwn cpu_util e = plain-IsOwn _ _ (measure_cpu_util-Topics F _ H m refl) e
  measure_and_report-IsOwn load e = plain-IsOwn _ _ (measure_load-Topics F _ H m refl refl) e
  measure_and_report-IsOwn procs e = plain-IsOwn _ _ (measure_procs-Topics F _ H m refl) e
  measure_and_report-IsOwn ram e = plain-IsOwn _ _ (measure_ram-Topics F _ H m refl) e
  measure_and_report-IsOwn psi_cpu e =
      plain-IsOwn _ _ (measure_psi-Topics F _ H m (codes "cpu") refl refl) e
  measure_and_report-IsOwn psi_memory e =
      plain-IsOwn _ _ (measure_psi-Topics F _ H m (codes "memory") refl refl) e
  measure_and_report-IsOwn psi_io e =
      plain-IsOwn _ _ (measure_psi-Topics F _ H m (codes "io") refl refl) e
  measure_and_report-IsOwn (wifi_rx_bitrate device) e =
      plain-IsOwn _ _ (some-Topics F _ _ (measure_wifi-AllTopics F _ H m _ _ _ device refl)) e
  measure_and_report-IsOwn (wifi_tx_bitrate device) e =
      plain-IsOwn _ _ (some-Topics F _ _ (measure_wifi-AllTopics F _ H m _ _ _ device refl)) e
  measure_and_report-IsOwn (wifi_signal device) e =
      plain-IsOwn _ _ (some-Topics F _ _ (measure_wifi-AllTopics F _ H m _ _ _ device refl)) e
  measure_and_report-IsOwn (network_data_rate devices) e =
      waiting-IsOwn _ _
        (measure_network_data_rate-AllTopics F _ H m devices (λ d. refl) (λ d. refl)) (some-inj e)
  measure_and_report-IsOwn (disk_data_rate devices) e =
      let (report, e', e'') = map-eq-some _ (measure_disk_data_rate F H m devices) e in
      waiting-IsOwn (disk_data_rate devices) report
        (measure_disk_data_rate-AllTopics F _ H m devices (λ d. refl) (λ d. refl) e') (sym e'')
  measure_and_report-IsOwn docker_cgroupv1_cpu e =
      plain-IsOwn _ _ (measure_docker_cgroupv1_cpu-Topics F _ H m (λ rest. refl)) e
  measure_and_report-IsOwn docker_cgroupv2_cpu e =
      plain-IsOwn _ _ (measure_docker_cgroupv2_cpu-Topics F _ H m (λ rest. refl)) e
  measure_and_report-IsOwn docker_cgroupv1_blkio e =
      plain-IsOwn _ _ (measure_docker_cgroupv1_blkio-Topics F _ H m (λ rest. refl)) e
  measure_and_report-IsOwn docker_cgroupv2_blkio e =
      plain-IsOwn _ _ (measure_docker_cgroupv2_blkio-Topics F _ H m (λ rest. refl)) e
  measure_and_report-IsOwn docker_cgroupv1_memory e =
      plain-IsOwn _ _ (measure_docker_cgroupv1_memory-Topics F _ H m (λ rest. refl)) e
  measure_and_report-IsOwn docker_cgroupv2_memory e =
      plain-IsOwn _ _ (measure_docker_cgroupv2_memory-Topics F _ H m (λ rest. refl)) e
  measure_and_report-IsOwn kubernetes_cgroupv1_cpu e =
      plain-IsOwn _ _ (measure_kubernetes_cgroupv1_cpu-Topics F _ H m (λ rest. refl)) e
  measure_and_report-IsOwn kubernetes_cgroupv2_cpu e =
      plain-IsOwn _ _ (measure_kubernetes_cgroupv2_cpu-Topics F _ H m (λ rest. refl)) e
  measure_and_report-IsOwn kubernetes_cgroupv1_blkio e =
      plain-IsOwn _ _ (measure_kubernetes_cgroupv1_blkio-Topics F _ H m (λ rest. refl)) e
  measure_and_report-IsOwn kubernetes_cgroupv2_blkio e =
      plain-IsOwn _ _ (measure_kubernetes_cgroupv2_blkio-Topics F _ H m (λ rest. refl)) e
  measure_and_report-IsOwn kubernetes_cgroupv1_memory e =
      plain-IsOwn _ _ (measure_kubernetes_cgroupv1_memory-Topics F _ H m (λ rest. refl)) e
  measure_and_report-IsOwn kubernetes_cgroupv2_memory e =
      plain-IsOwn _ _ (measure_kubernetes_cgroupv2_memory-Topics F _ H m (λ rest. refl)) e
  measure_and_report-IsOwn (docker_cgroupv1_network pids proc_mount) e =
      keeping-IsOwn (docker_cgroupv1_network pids proc_mount) _ _
        (measure_docker_cgroupv1_network-TurnTopics F _ H proc_mount (λ rest. refl) m pids)
        (λ t. refl) e
  measure_and_report-IsOwn (docker_cgroupv2_network pids proc_mount) e =
      keeping-IsOwn (docker_cgroupv2_network pids proc_mount) _ _
        (measure_docker_cgroupv2_network-TurnTopics F _ H proc_mount (λ rest. refl) m pids)
        (λ t. refl) e
  measure_and_report-IsOwn (kubernetes_cgroupv1_network pids proc_mount) e =
      keeping_stored-IsOwn (kubernetes_cgroupv1_network pids proc_mount) _ _
        (measure_kubernetes_cgroupv1_network-TurnTopics F _ (λ rest. refl) H proc_mount m order
          pids)
        (λ c. refl) e
  measure_and_report-IsOwn (kubernetes_cgroupv2_network pids proc_mount) e =
      keeping_stored-IsOwn (kubernetes_cgroupv2_network pids proc_mount) _ _
        (measure_kubernetes_cgroupv2_network-TurnTopics F _ (λ rest. refl) H proc_mount m order
          pids)
        (λ c. refl) e
