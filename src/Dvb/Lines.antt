-- ===== src/Dvb/Lines.antt =====
-- A line of the channel list that is complete, and the programme that the parser makes of it.

use dvb_stream_v.Base.{
  ℕ, ◌+◌, ◌<◌, ◌≡◌, refl, sym, ap, ◌∙◌, true, some, List, [], ◌∷◌, ◌++◌, arith, length, take, drop,
  All, length-append, take-append,
}
use dvb_stream_v.Cfg.{scan_int, dvbcfg_lookup_setting}
use dvb_stream_v.Cfg.Settings.{IsPlain}
use dvb_stream_v.Dvb.Settings.{
  dvbcfg_inversion_list, dvbcfg_fec_list, dvbcfg_constellation_list, dvbcfg_transmission_mode_list,
  dvbcfg_guard_interval_list, dvbcfg_hierarchy_list, dvbcfg_bandwidth_list, Api, GnProgram,
}
use dvb_stream_v.Dvb.{
  colon, put_property, name_stage, fixed_properties, trim, parse_settings, parse_line,
}
use dvb_stream_v.Dvb.Stages.{
  past_lem, setting_stage_lem, low_fec_stage_lem, frequency_stage_lem, video_stage_lem,
  audio_stage_lem, service_stage_lem, name_stage_lem,
}
use dvb_stream_v.Dvb.Tables.{
  inversion_table, bandwidth_table, fec_table, constellation_table, mode_table, guard_table,
  hierarchy_table,
}
use dvb_stream_v.Dvb.Text.{settings_of, text_of, StaysIn, EndsLine, trim_lem, text_of-append, Line}

-- The numbers are texts that `sscanf` reads so, the settings are the names of the tables.
pub record IsLine (api : Api) (l : Line) : Type 0 where
  pub name_plain : All (IsPlain colon) l.name
  pub name_fits : length l.name < 50
  pub frequency_plain : All (IsPlain colon) l.frequency_text
  pub frequency_read : scan_int l.frequency_text ≡ some l.frequency
  pub inversion_named :
      dvbcfg_lookup_setting l.inversion (dvbcfg_inversion_list api) ≡ some l.inversion_text
  pub bandwidth_named :
      dvbcfg_lookup_setting l.bandwidth (dvbcfg_bandwidth_list api) ≡ some l.bandwidth_text
  pub fec_named : dvbcfg_lookup_setting l.fec (dvbcfg_fec_list api) ≡ some l.fec_text
  pub low_fec_named : dvbcfg_lookup_setting l.low_fec (dvbcfg_fec_list api) ≡ some l.low_fec_text
  pub constellation_named :
      dvbcfg_lookup_setting l.constellation (dvbcfg_constellation_list api)
      ≡ some l.constellation_text
  pub mode_named :
      dvbcfg_lookup_setting l.mode (dvbcfg_transmission_mode_list api) ≡ some l.mode_text
  pub guard_named :
      dvbcfg_lookup_setting l.guard (dvbcfg_guard_interval_list api) ≡ some l.guard_text
  pub hierarchy_named :
      dvbcfg_lookup_setting l.hierarchy (dvbcfg_hierarchy_list api) ≡ some l.hierarchy_text
  pub video_plain : All (IsPlain colon) l.video_text
  pub video_read : scan_int l.video_text ≡ some l.video
  pub audio_plain : All (IsPlain colon) l.audio_text
  pub audio_read : scan_int l.audio_text ≡ some l.audio
  pub service_plain : All (IsPlain colon) l.service_text
  pub service_read : scan_int l.service_text ≡ some l.service

module _ (api : Api) where
  -- The entry with the line's values.
  abbrev properties_of : Line → GnProgram → GnProgram
  properties_of l p0 =
      let p1 = put_property p0 1 api.dtv_inversion l.inversion in
      let p2 = put_property p1 2 api.dtv_bandwidth_hz l.bandwidth in
      let p3 = put_property p2 3 api.dtv_inner_fec l.fec in
      let p4 = put_property p3 4 api.dtv_modulation l.constellation in
      let p5 = put_property p4 5 api.dtv_transmission_mode l.mode in
      let p6 = put_property p5 6 api.dtv_guard_interval l.guard in
      put_property p6 7 api.dtv_hierarchy l.hierarchy

  abbrev filled_in : Line → GnProgram → GnProgram
  filled_in l p0 = record (fixed_properties api (properties_of l p0)) {
    video_pid = l.video;
    audio_pid = l.audio;
    service_id = l.service;
  }

  parse_settings_lem :
      (l : Line) (p : GnProgram) (rest : List ℕ)
      → IsLine api l
      → parse_settings api p (settings_of l (0 ∷ rest)) ≡ (filled_in l p, true)
  unfolding parse_settings
  parse_settings_lem l p rest v =
      past_lem _ _ _ _ (
        setting_stage_lem 1 api.dtv_inversion l.inversion (dvbcfg_inversion_list api) _
          l.inversion_text _ (inversion_table api) v.inversion_named)
      ∙ past_lem _ _ _ _ (
          setting_stage_lem 2 api.dtv_bandwidth_hz l.bandwidth (dvbcfg_bandwidth_list api) _
            l.bandwidth_text _ (bandwidth_table api) v.bandwidth_named)
      ∙ past_lem _ _ _ _ (
          setting_stage_lem 3 api.dtv_inner_fec l.fec (dvbcfg_fec_list api) _ l.fec_text _
            (fec_table api) v.fec_named)
      ∙ past_lem _ _ _ _ (
          low_fec_stage_lem l.low_fec (dvbcfg_fec_list api) _ l.low_fec_text _ (fec_table api)
            v.low_fec_named)
      ∙ past_lem _ _ _ _ (
          setting_stage_lem 4 api.dtv_modulation l.constellation (dvbcfg_constellation_list api) _
            l.constellation_text _ (constellation_table api) v.constellation_named)
      ∙ past_lem _ _ _ _ (
          setting_stage_lem 5 api.dtv_transmission_mode l.mode (dvbcfg_transmission_mode_list api) _
            l.mode_text _ (mode_table api) v.mode_named)
      ∙ past_lem _ _ _ _ (
          setting_stage_lem 6 api.dtv_guard_interval l.guard (dvbcfg_guard_interval_list api) _
            l.guard_text _ (guard_table api) v.guard_named)
      ∙ past_lem _ _ _ _ (
          setting_stage_lem 7 api.dtv_hierarchy l.hierarchy (dvbcfg_hierarchy_list api) _
            l.hierarchy_text _ (hierarchy_table api) v.hierarchy_named)
      ∙ past_lem _ _ _ _ (
          video_stage_lem l.video (fixed_properties api (properties_of l p)) l.video_text _
            v.video_plain v.video_read)
      ∙ past_lem _ _ _ _ (
          audio_stage_lem l.audio
            (record (fixed_properties api (properties_of l p)) { video_pid = l.video }) l.audio_text
            _ v.audio_plain v.audio_read)
      ∙ service_stage_lem l.service
          (record (fixed_properties api (properties_of l p)) {
            video_pid = l.video;
            audio_pid = l.audio;
          })
          l.service_text rest v.service_plain v.service_read

-- What the line says, and what the device is to be told.
pub record IsProgramme (api : Api) (l : Line) (p : GnProgram) : Type 0 where
  pub named : take (length l.name + 1) p.name ≡ l.name ++ 0 ∷ []
  pub frequency_set : p.property 0 ≡ record { cmd = api.dtv_frequency; value = l.frequency }
  pub inversion_set : p.property 1 ≡ record { cmd = api.dtv_inversion; value = l.inversion }
  pub bandwidth_set : p.property 2 ≡ record { cmd = api.dtv_bandwidth_hz; value = l.bandwidth }
  pub fec_set : p.property 3 ≡ record { cmd = api.dtv_inner_fec; value = l.fec }
  pub constellation_set :
      p.property 4 ≡ record { cmd = api.dtv_modulation; value = l.constellation }
  pub mode_set : p.property 5 ≡ record { cmd = api.dtv_transmission_mode; value = l.mode }
  pub guard_set : p.property 6 ≡ record { cmd = api.dtv_guard_interval; value = l.guard }
  pub hierarchy_set : p.property 7 ≡ record { cmd = api.dtv_hierarchy; value = l.hierarchy }
  pub system_set : p.property 8 ≡ record { cmd = api.dtv_delivery_system; value = api.sys_dvbt }
  pub tune_set : (p.property 9).cmd ≡ api.dtv_tune
  pub ten : p.property_len ≡ 10
  pub video_is : p.video_pid ≡ l.video
  pub audio_is : p.audio_pid ≡ l.audio
  pub service_is : p.service_id ≡ l.service

-- A complete line, of a name of at most 49 characters, numbers that `sscanf` reads and settings by
-- their names, with colons between them alone, without a terminator, a newline or a hash in it, and with one of
-- these three behind it, is counted, and makes the programme that it describes, whatever the entry held before
-- and whatever else is in the buffer.
pub parse_line-IsProgramme :
    (api : Api) (l : Line) (p : GnProgram) (e : ℕ) (rest : List ℕ)
    → IsLine api l
    → All StaysIn (text_of l [])
    → EndsLine e
    → (q : GnProgram) × (parse_line api p (text_of l (e ∷ rest)) ≡ (q, true)) × IsProgramme api l q
unfolding parse_line
parse_line-IsProgramme api l p e rest v stays ends =
    let clean : trim (text_of l (e ∷ rest)) ≡ text_of l (0 ∷ rest) =
      ap trim (text_of-append l (e ∷ rest))
      ∙ trim_lem (text_of l []) e rest ends stays
      ∙ sym (text_of-append l (0 ∷ rest)) in
    let name = l.name ++ 0 ∷ [] in
    let p1 : GnProgram = record p { name = name ++ drop (length name) p.name } in
    let p2 = put_property p1 0 api.dtv_frequency l.frequency in
    let run =
      past_lem _ _ _ _
        (ap (name_stage p) clean ∙ name_stage_lem p l.name _ v.name_plain v.name_fits)
      ∙ past_lem _ _ _ _ (
          frequency_stage_lem api.dtv_frequency l.frequency p1 l.frequency_text _ v.frequency_plain
            v.frequency_read)
      ∙ parse_settings_lem api l p2 rest v in
    (
      filled_in api l p2,
      run,
      record {
        named =
            take-append (length l.name + 1) name _ (omega (arith, length-append l.name (0 ∷ [])));
        frequency_set = refl;
        inversion_set = refl;
        bandwidth_set = refl;
        fec_set = refl;
        constellation_set = refl;
        mode_set = refl;
        guard_set = refl;
        hierarchy_set = refl;
        system_set = refl;
        tune_set = refl;
        ten = refl;
        video_is = refl;
        audio_is = refl;
        service_is = refl;
      },
    )
