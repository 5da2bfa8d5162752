-- ===== src/Dvb/Tests.antt =====
-- A channel list and a device.
use dvb_stream_v.Base.{
  ℕ, ◌≤◌, ◌≡◌, refl, ◌≢◌, inr, Bool, true, ◌&&◌, not, none, some, List, [], ◌∷◌, arith, ◌==◌,
  if◌then◌else◌, replicate, All,
}
use dvb_stream_v.Cfg.{
  codes, contains, is_space, digit_of, read_digits, read_number, read_prefixed, skip_space,
  scan_int, minus_one, dvbcfg_lookup_setting,
}
use dvb_stream_v.Dvb.Settings.{Api, GnProgram}
use dvb_stream_v.Dvb.{colon, parse_line, dvbcfg_zapchannel_parse}
use dvb_stream_v.Dvb.Channels.{dvbcfg_zapchannel_parse-bounds}
use dvb_stream_v.Dvb.Text.{text_of, StaysIn, Line}
use dvb_stream_v.Dvb.Lines.{parse_line-IsProgramme, IsLine, IsProgramme}
use dvb_stream_v.Dvb.Device.{
  dvb_open_device, dvb_close_device, dvb_open_chennel, dvb_open_chennel_lem, Request, Opening,
  fe_set_property, dmx_set_pes_filter, dmx_add_pid, dmx_start,
}
use dvb_stream_v.Dvb.Tables.{all_plain_sound}

abbrev api : Api
api = record {
  dtv_tune = 1;
  dtv_frequency = 3;
  dtv_modulation = 4;
  dtv_bandwidth_hz = 5;
  dtv_inversion = 6;
  dtv_inner_fec = 9;
  dtv_delivery_system = 17;
  dtv_guard_interval = 38;
  dtv_transmission_mode = 39;
  dtv_hierarchy = 40;
  sys_dvbt = 3;
  inversion_off = 0;
  inversion_on = 1;
  inversion_auto = 2;
  fec_none = 0;
  fec_1_2 = 1;
  fec_2_3 = 2;
  fec_3_4 = 3;
  fec_4_5 = 4;
  fec_5_6 = 5;
  fec_6_7 = 6;
  fec_7_8 = 7;
  fec_8_9 = 8;
  fec_auto = 9;
  qam_16 = 1;
  qam_32 = 2;
  qam_64 = 3;
  qam_128 = 4;
  qam_256 = 5;
  qam_auto = 6;
  mode_2k = 0;
  mode_8k = 1;
  mode_auto = 2;
  guard_1_32 = 0;
  guard_1_16 = 1;
  guard_1_8 = 2;
  guard_1_4 = 3;
  guard_auto = 4;
  hierarchy_none = 0;
  hierarchy_1 = 1;
  hierarchy_2 = 2;
  hierarchy_4 = 3;
  hierarchy_auto = 4;
}

abbrev empty : GnProgram
empty = record {
  name = replicate 50 0;
  video_pid = 0;
  audio_pid = 0;
  service_id = 0;
  property_len = 0;
  property = λ _. record { cmd = 0; value = 0 };
}

abbrev line : Line
line = record {
  name = codes "ZDF";
  frequency_text = codes "514000000";
  inversion_text = codes "INVERSION_AUTO";
  bandwidth_text = codes "BANDWIDTH_8_MHZ";
  fec_text = codes "FEC_2_3";
  low_fec_text = codes "FEC_AUTO";
  constellation_text = codes "QAM_16";
  mode_text = codes "TRANSMISSION_MODE_8K";
  guard_text = codes "GUARD_INTERVAL_1_4";
  hierarchy_text = codes "HIERARCHY_NONE";
  video_text = codes "545";
  audio_text = codes "546";
  service_text = codes "514";
  frequency = 514000000;
  inversion = 2;
  bandwidth = 8000000;
  fec = 2;
  low_fec = 9;
  constellation = 1;
  mode = 1;
  guard = 3;
  hierarchy = 0;
  video = 545;
  audio = 546;
  service = 514;
}

line-IsLine : IsLine api line
unfolding contains dvbcfg_lookup_setting scan_int skip_space is_space read_prefixed read_number
    read_digits digit_of
line-IsLine = record {
  name_plain = all_plain_sound colon (codes "ZDF") refl;
  name_fits = omega arith;
  frequency_plain = all_plain_sound colon (codes "514000000") refl;
  frequency_read = refl;
  inversion_named = refl;
  bandwidth_named = refl;
  fec_named = refl;
  low_fec_named = refl;
  constellation_named = refl;
  mode_named = refl;
  guard_named = refl;
  hierarchy_named = refl;
  video_plain = all_plain_sound colon (codes "545") refl;
  video_read = refl;
  audio_plain = all_plain_sound colon (codes "546") refl;
  audio_read = refl;
  service_plain = all_plain_sound colon (codes "514") refl;
  service_read = refl;
}

-- A test for characters that stay.
abbrev all_stay : List ℕ → Bool
all_stay [] = true
all_stay (c ∷ cs) = not (c == 0) && not (c == 0x0a) && not (c == b'#') && all_stay cs

all_stay_sound : (cs : List ℕ) → all_stay cs ≡ true → All StaysIn cs
all_stay_sound [] h = tt
all_stay_sound (c ∷ cs) h =
    let a : (c ≢ 0) × (c ≢ 0x0a) × (c ≢ b'#') × (all_stay cs ≡ true) = ground arith in
    ((a.0, a.1, a.2), all_stay_sound cs a.3)

line_stays : All StaysIn (text_of line [])
unfolding dvbcfg_lookup_setting
line_stays = all_stay_sound (text_of line []) refl

parse_line-IsProgramme_example :
    (q : GnProgram) × (parse_line api empty (text_of line (b'#' ∷ 7 ∷ [])) ≡ (q, true))
    × IsProgramme api line q
parse_line-IsProgramme_example =
    parse_line-IsProgramme api line empty b'#' (7 ∷ []) line-IsLine line_stays (inr (inr refl))

abbrev lines : List (List ℕ)
lines = codes "no line" ∷ text_of line (0x0a ∷ []) ∷ []

dvbcfg_zapchannel_parse-bounds_example :
    ((dvbcfg_zapchannel_parse api lines (λ _. empty)).1 ≤ 50)
    × ((dvbcfg_zapchannel_parse api lines (λ _. empty)).1 ≤ 2)
    × ((k : ℕ) → 50 ≤ k → (dvbcfg_zapchannel_parse api lines (λ _. empty)).0 k ≡ empty)
dvbcfg_zapchannel_parse-bounds_example = dvbcfg_zapchannel_parse-bounds api lines (λ _. empty)

abbrev tuned : GnProgram
tuned = record empty { video_pid = 545; audio_pid = 546; property_len = 10 }

-- A device that refuses the audio alone.
abbrev answers : ℕ → Request → ℕ
answers n request = if n == 2 then minus_one else 0

dvb_open_chennel_lem_example : Opening answers tuned (dvb_open_chennel answers tuned)
dvb_open_chennel_lem_example = dvb_open_chennel_lem answers tuned

opened : dvb_open_chennel answers tuned ≡ (
  0,
  fe_set_property 10 tuned.property
      ∷ dmx_set_pes_filter 545
      ∷ dmx_add_pid 546
      ∷ dmx_add_pid 0
      ∷ dmx_add_pid 544
      ∷ dmx_start
      ∷ [],
)
unfolding dvb_open_chennel
opened = refl

failed_demux : dvb_open_device (some 3) none ≡ (1, none)
unfolding dvb_open_device
failed_demux = refl

closed :
    dvb_close_device (λ fd. fd == 3) (record { frontend_fd = 3; demux_fd = 4 }) ≡ (1, 3 ∷ 4 ∷ [])
unfolding dvb_close_device
closed = refl
