-- ===== src/Dvb.antt =====
-- mycode/gn_dvb.h and gn_dvb.c: the channel list, and the DVB device.
--
-- The numbers of the Linux DVB interface are a parameter, `Api`. `getline` enters as the buffers that it
-- leaves, each with its terminator and what an earlier line left behind it; `open`, `close` and `ioctl`
-- enter as their results. An int is its bit pattern.
pub mod Settings
pub mod Channels
pub mod Stages
pub mod Tables
pub mod Text
pub mod Lines
pub mod Device
mod Tests
use dvb_stream_v.Base.{
  ℕ, ◌+◌, Bool, true, false, ◌||◌, Option, none, some, List, [], ◌∷◌, ◌++◌, ltb, ◌==◌,
  if◌then◌else◌, length, drop,
}
use dvb_stream_v.Ring.{update}
use dvb_stream_v.Dvb.Settings.{
  max_program_nums, entry, dvbcfg_inversion_list, dvbcfg_fec_list, dvbcfg_constellation_list,
  dvbcfg_transmission_mode_list, dvbcfg_guard_interval_list, dvbcfg_hierarchy_list,
  dvbcfg_bandwidth_list, Api, GnProgram,
}
use dvb_stream_v.Cfg.{
  codes, dvbcfg_parse_int, dvbcfg_parse_setting, dvbcfg_parse_string, DvbcfgSetting,
}

-- `":"`
abbrev pub colon : List ℕ
colon = codes ":"

-- The entry that is being filled in, and `line_pos`; `none` is NULL.
abbrev pub Stage : Type 0
Stage = GnProgram × Option (List ℕ)

-- `if (!line_pos) continue;`: the rest of the round, or the entry as it is and no `count++`.
unfoldable pub past : Stage → (GnProgram → List ℕ → GnProgram × Bool) → GnProgram × Bool
past (p, none) k = (p, false)
past (p, some text) k = k p text

-- `p[count].property[i].cmd = c; p[count].property[i].u.data = v;`
abbrev pub put_property : GnProgram → ℕ → ℕ → ℕ → GnProgram
put_property p i c v = record p { property = update p.property i (record { cmd = c; value = v }) }

abbrev pub setting_stage : ℕ → ℕ → List DvbcfgSetting → GnProgram → List ℕ → Stage
setting_stage i c settings p text =
    let (stop, v) = dvbcfg_parse_setting text colon settings in (put_property p i c v, stop)

-- The second error correction is parsed, and not used.
abbrev pub low_fec_stage : List DvbcfgSetting → GnProgram → List ℕ → Stage
low_fec_stage settings p text = (p, (dvbcfg_parse_setting text colon settings).0)

abbrev pub frequency_stage : ℕ → GnProgram → List ℕ → Stage
frequency_stage c p text =
    let (stop, v) = dvbcfg_parse_int text colon in (put_property p 0 c v, stop)

-- The name: `dest` is written from its start on, if the field fits.
abbrev pub name_stage : GnProgram → List ℕ → Stage
name_stage p text =
    let (stop, dest) = dvbcfg_parse_string text colon 50 in
    elim dest as (λ _. Stage) [
      | none ↦ (p, stop)
      | some field ↦ (record p { name = field ++ drop (length field) p.name }, stop)
    ]

-- The entries that do not come from the line; the value of the last one is not set.
abbrev pub fixed_properties : Api → GnProgram → GnProgram
fixed_properties api p =
    let q = put_property p 8 api.dtv_delivery_system api.sys_dvbt in
    record (put_property q 9 api.dtv_tune (q.property 9).value) { property_len = 10 }

abbrev pub video_stage : GnProgram → List ℕ → Stage
video_stage p text =
    let (stop, v) = dvbcfg_parse_int text colon in (record p { video_pid = v }, stop)

abbrev pub audio_stage : GnProgram → List ℕ → Stage
audio_stage p text =
    let (stop, v) = dvbcfg_parse_int text colon in (record p { audio_pid = v }, stop)

-- Old files have no service id.
abbrev pub service_stage : GnProgram → List ℕ → GnProgram × Bool
service_stage p text =
    let (stop, v) = dvbcfg_parse_int text colon in
    elim stop as (λ _. GnProgram × Bool) [
      | none ↦ (record p { service_id = 0 }, true)
      | some more ↦ (record p { service_id = v }, true)
    ]

-- The newline, or the hash of a comment, becomes the terminator.
unfoldable pub trim : List ℕ → List ℕ
trim [] = []
trim (c ∷ cs) = let rest = trim cs in if c == 0 || c == 0x0a || c == b'#' then 0 ∷ cs else c ∷ rest

module _ (api : Api) where
  -- The fields behind the name.
  unfoldable pub parse_settings : GnProgram → List ℕ → GnProgram × Bool
  unfolding past
  parse_settings p text =
      past (setting_stage 1 api.dtv_inversion (dvbcfg_inversion_list api) p text) (λ p text.
        past (setting_stage 2 api.dtv_bandwidth_hz (dvbcfg_bandwidth_list api) p text) (λ p text.
          past (setting_stage 3 api.dtv_inner_fec (dvbcfg_fec_list api) p text) (λ p text.
            past (low_fec_stage (dvbcfg_fec_list api) p text) (λ p text.
              past (setting_stage 4 api.dtv_modulation (dvbcfg_constellation_list api) p text)
                (λ p text.
                  past
                    (setting_stage 5 api.dtv_transmission_mode (dvbcfg_transmission_mode_list api) p
                      text)
                    (λ p text.
                      past
                        (setting_stage 6 api.dtv_guard_interval (dvbcfg_guard_interval_list api) p
                          text)
                        (λ p text.
                          past
                            (setting_stage 7 api.dtv_hierarchy (dvbcfg_hierarchy_list api) p text)
                            (λ p text.
                              past (video_stage (fixed_properties api p) text)
                                (λ p text. past (audio_stage p text) service_stage)))))))))

  -- A round of the loop of `dvbcfg_zapchannel_parse`: the entry, and whether `count++` is reached.
  unfoldable pub parse_line : GnProgram → List ℕ → GnProgram × Bool
  unfolding past trim parse_settings
  parse_line p line =
      past (name_stage p (trim line))
        (λ p text. past (frequency_stage api.dtv_frequency p text) parse_settings)

  -- The loop, from an entry number on.
  unfoldable pub parse_lines : List (List ℕ) → (ℕ → GnProgram) → ℕ → (ℕ → GnProgram) × ℕ
  unfolding parse_line
  parse_lines [] p count = (p, count)
  parse_lines (line ∷ lines) p count =
      let (entry, complete) = parse_line (p count) line in
      let rest = parse_lines lines (update p count entry) (if complete then count + 1 else count) in
      if ltb count max_program_nums then rest else (p, count)

  -- `dvbcfg_zapchannel_parse`: its array, whose cells start as `stray`, and its result.
  unfoldable pub dvbcfg_zapchannel_parse : List (List ℕ) → (ℕ → GnProgram) → (ℕ → GnProgram) × ℕ
  unfolding parse_lines
  dvbcfg_zapchannel_parse lines stray = parse_lines lines stray 0
