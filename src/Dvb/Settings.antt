-- ===== src/Dvb/Settings.antt =====
-- mycode/gn_dvb.h and the tables of mycode/gn_dvb.c: the interface's numbers, the entries of the channel
-- list and the names of the settings.
use Prim.Native.String.{String}
use dvb_stream_v.Base.{ℕ, List, [], ◌∷◌}
use dvb_stream_v.Cfg.{codes, DvbcfgSetting}

-- The constants of linux/dvb/frontend.h that the file uses.
pub record Api : Type 0 where
  pub dtv_frequency : ℕ
  pub dtv_inversion : ℕ
  pub dtv_bandwidth_hz : ℕ
  pub dtv_inner_fec : ℕ
  pub dtv_modulation : ℕ
  pub dtv_transmission_mode : ℕ
  pub dtv_guard_interval : ℕ
  pub dtv_hierarchy : ℕ
  pub dtv_delivery_system : ℕ
  pub dtv_tune : ℕ
  pub sys_dvbt : ℕ
  pub inversion_on : ℕ
  pub inversion_off : ℕ
  pub inversion_auto : ℕ
  pub fec_1_2 : ℕ
  pub fec_2_3 : ℕ
  pub fec_3_4 : ℕ
  pub fec_4_5 : ℕ
  pub fec_5_6 : ℕ
  pub fec_6_7 : ℕ
  pub fec_7_8 : ℕ
  pub fec_8_9 : ℕ
  pub fec_auto : ℕ
  pub fec_none : ℕ
  pub qam_16 : ℕ
  pub qam_32 : ℕ
  pub qam_64 : ℕ
  pub qam_128 : ℕ
  pub qam_256 : ℕ
  pub qam_auto : ℕ
  pub mode_2k : ℕ
  pub mode_8k : ℕ
  pub mode_auto : ℕ
  pub guard_1_32 : ℕ
  pub guard_1_16 : ℕ
  pub guard_1_8 : ℕ
  pub guard_1_4 : ℕ
  pub guard_auto : ℕ
  pub hierarchy_1 : ℕ
  pub hierarchy_2 : ℕ
  pub hierarchy_4 : ℕ
  pub hierarchy_auto : ℕ
  pub hierarchy_none : ℕ

-- `MAX_PROGRAM_NUMS`
abbrev pub max_program_nums : ℕ
max_program_nums = 50

-- `struct dtv_property`, as far as it is used.
pub record DtvProperty : Type 0 where
  pub cmd : ℕ
  pub value : ℕ

-- `struct gn_program`
pub record GnProgram : Type 0 where
  pub name : List ℕ
  pub video_pid : ℕ
  pub audio_pid : ℕ
  pub service_id : ℕ
  pub property_len : ℕ
  pub property : ℕ → DtvProperty

-- `{ "NAME", NUMBER }`
abbrev pub entry : String → ℕ → DvbcfgSetting
entry text v = record { name = codes text; value = v }

module _ (api : Api) where
  abbrev pub dvbcfg_inversion_list : List DvbcfgSetting
  dvbcfg_inversion_list =
      entry "INVERSION_ON" api.inversion_on
      ∷ entry "INVERSION_OFF" api.inversion_off
      ∷ entry "INVERSION_AUTO" api.inversion_auto
      ∷ []

  abbrev pub dvbcfg_fec_list : List DvbcfgSetting
  dvbcfg_fec_list =
      entry "FEC_1_2" api.fec_1_2
      ∷ entry "FEC_2_3" api.fec_2_3
      ∷ entry "FEC_3_4" api.fec_3_4
      ∷ entry "FEC_4_5" api.fec_4_5
      ∷ entry "FEC_5_6" api.fec_5_6
      ∷ entry "FEC_6_7" api.fec_6_7
      ∷ entry "FEC_7_8" api.fec_7_8
      ∷ entry "FEC_8_9" api.fec_8_9
      ∷ entry "FEC_AUTO" api.fec_auto
      ∷ entry "FEC_NONE" api.fec_none
      ∷ []

  abbrev pub dvbcfg_constellation_list : List DvbcfgSetting
  dvbcfg_constellation_list =
      entry "QAM_16" api.qam_16
      ∷ entry "QAM_32" api.qam_32
      ∷ entry "QAM_64" api.qam_64
      ∷ entry "QAM_128" api.qam_128
      ∷ entry "QAM_256" api.qam_256
      ∷ entry "QAM_AUTO" api.qam_auto
      ∷ []

  abbrev pub dvbcfg_transmission_mode_list : List DvbcfgSetting
  dvbcfg_transmission_mode_list =
      entry "TRANSMISSION_MODE_2K" api.mode_2k
      ∷ entry "TRANSMISSION_MODE_8K" api.mode_8k
      ∷ entry "TRANSMISSION_MODE_AUTO" api.mode_auto
      ∷ []

  abbrev pub dvbcfg_guard_interval_list : List DvbcfgSetting
  dvbcfg_guard_interval_list =
      entry "GUARD_INTERVAL_1_32" api.guard_1_32
      ∷ entry "GUARD_INTERVAL_1_16" api.guard_1_16
      ∷ entry "GUARD_INTERVAL_1_8" api.guard_1_8
      ∷ entry "GUARD_INTERVAL_1_4" api.guard_1_4
      ∷ entry "GUARD_INTERVAL_AUTO" api.guard_auto
      ∷ []

  abbrev pub dvbcfg_hierarchy_list : List DvbcfgSetting
  dvbcfg_hierarchy_list =
      entry "HIERARCHY_1" api.hierarchy_1
      ∷ entry "HIERARCHY_2" api.hierarchy_2
      ∷ entry "HIERARCHY_4" api.hierarchy_4
      ∷ entry "HIERARCHY_AUTO" api.hierarchy_auto
      ∷ entry "HIERARCHY_NONE" api.hierarchy_none
      ∷ []

  abbrev pub dvbcfg_bandwidth_list : List DvbcfgSetting
  dvbcfg_bandwidth_list =
      entry "BANDWIDTH_6_MHZ" 6000000
      ∷ entry "BANDWIDTH_7_MHZ" 7000000
      ∷ entry "BANDWIDTH_8_MHZ" 8000000
      ∷ []
